-- ===== src/Stack/System.antt =====
-- Any number of threads over one `Stack` (src/stack.cpp), interleaved in any order, and the blocks
-- that they own outside it.
use concurrentfw.Prelude.{ℕ, ◌+◌, ◌≡◌, ◌≢◌, Option, none, some, List, [], ◌∷◌, ◌++◌, update}
use concurrentfw.AbaWrapper.Dwcas.{construct}
use concurrentfw.Stack.{
  Block, null, Memory, Pc, idle, pop_start, rejected, Event, silent, pushed, popped, found_empty,
  push_entry, run,
}

-- `owner` is the caller's contract and no state of the program: a thread pushes, writes to and
-- hands over the blocks that it owns, which are those that it was given or has popped. `changes`
-- counts the pushes and pops that took effect.
pub record System : Type 0 where
  pub memory : Memory
  pub pc : ℕ → Pc
  pub owner : Block → Option ℕ
  pub changes : ℕ

-- A new stack; any words in memory, and any owners of the blocks.
unfoldable pub init : (Block → ℕ) → (Block → Option ℕ) → System
unfolding construct
init link owner = record {
  memory = record { link = link; stack = construct null };
  pc = λ _. idle;
  owner = owner;
  changes = 0;
}

abbrev pub settle : ℕ → Event → (Block → Option ℕ) → Block → Option ℕ
settle i silent owner = owner
settle i (pushed b) owner = update owner b none
settle i (popped b) owner = update owner b (some i)
settle i found_empty owner = owner

abbrev pub tally : Event → ℕ → ℕ
tally silent n = n
tally (pushed b) n = n + 1
tally (popped b) n = n + 1
tally found_empty n = n

module _ (w : ℕ) where
  pub data Step (s : System) : Event → System → Type 0 where
    call_push :
        (i : ℕ) (b : Block)
        → s.pc i ≡ idle
        → (b ≢ null → s.owner b ≡ some i)
        → Step s silent (record s { pc = update s.pc i (push_entry b) })
    call_pop : (i : ℕ) → s.pc i ≡ idle → Step s silent (record s { pc = update s.pc i pop_start })
    recover : (i : ℕ) → s.pc i ≡ rejected → Step s silent (record s { pc = update s.pc i idle })
    use_block :
        (i : ℕ) (b : Block) (word : ℕ)
        → s.pc i ≡ idle
        → s.owner b ≡ some i
        → Step s silent
            (record s { memory = record s.memory { link = update s.memory.link b word } })
    hand_over :
        (i j : ℕ) (b : Block)
        → s.pc i ≡ idle
        → s.owner b ≡ some i
        → Step s silent (record s { owner = update s.owner b (some j) })
    access :
        (i : ℕ)
        → Step s (run w s.memory (s.pc i)).2 (record {
          memory = (run w s.memory (s.pc i)).0;
          pc = update s.pc i (run w s.memory (s.pc i)).1;
          owner = settle i (run w s.memory (s.pc i)).2 s.owner;
          changes = tally (run w s.memory (s.pc i)).2 s.changes;
        })

  -- The runs from `s`, with their events in order.
  pub data Run (s : System) : List Event → System → Type 0 where
    start : Run s [] s
    later :
        {es : List Event} {t u : System} {e : Event}
        → Run s es t
        → Step t e u
        → Run s (es ++ e ∷ []) u
