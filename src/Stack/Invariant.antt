-- ===== src/Stack/Invariant.antt =====
-- What holds of the class `Stack` (src/stack.cpp) while its counter has not wrapped round.
pub mod Frames
pub mod Moves
pub mod Accesses
use concurrentfw.Prelude.{
  ℕ, suc, ◌+◌, ◌≤◌, ◌<◌, ◌≡◌, refl, ◌≢◌, Bool, true, false, Option, none, some, List, [], ◌∷◌,
  update, has, ◌==◌, arith,
}
use concurrentfw.AbaWrapper.{Content}
use concurrentfw.Stack.{
  Block, null, Memory, Pc, idle, push_start, push_cached, push_linked, pop_start, pop_cached,
  pop_read, rejected,
}
use concurrentfw.Stack.Chain.{Chain}

-- A cached content is not from the future, and is the present one if its counter is.
abbrev pub Fresh : Content → Content → Type 0
Fresh cache stack =
    (cache.counter ≤ stack.counter) × (cache.counter ≡ stack.counter → cache.value ≡ stack.value)

-- What the locals of thread `i` say about the shared memory.
abbrev pub Local : (Block → ℕ) → Content → (Block → Option ℕ) → ℕ → Pc → Type 0
Local link stack owner i (push_start b) = (b ≢ null) × (owner b ≡ some i)
Local link stack owner i (push_cached b c) = (b ≢ null) × (owner b ≡ some i) × Fresh c stack
Local link stack owner i (push_linked b c) =
    (b ≢ null) × (owner b ≡ some i) × Fresh c stack × (link b ≡ c.value)
Local link stack owner i (pop_cached c) = (c.value ≢ null) × Fresh c stack
Local link stack owner i (pop_read c below) =
    (c.value ≢ null) × Fresh c stack × (c.counter ≡ stack.counter → link c.value ≡ below)
Local link stack owner i _ = Unit

-- The stack holds the blocks `xs`, top first, and nobody owns one of them.
pub record Holds (m : Memory) (owner : Block → Option ℕ) (pc : ℕ → Pc) (changes : ℕ)
    (xs : List Block) : Type 0 where
  pub counted : m.stack.counter ≡ changes + 1
  pub chain : Chain m.link m.stack.value xs
  pub unowned : (b : Block) → has b xs ≡ true → owner b ≡ none
  pub local : (i : ℕ) → Local m.link m.stack owner i (pc i)
