-- ===== src/AbaWrapper/Dwcas.antt =====
-- The DWCAS branches of src/concurrentfw/aba_wrapper.hpp, over the double-word operations of
-- src/concurrentfw/atomic_asm_x86.hpp. `w` is the width of a word in bits.
use concurrentfw.Prelude.{
  ℕ, suc, zero, ◌+◌, ◌%◌, ◌^◌, Bool, true, false, Option, none, some, List, [], ◌∷◌, if◌then◌else◌,
  length,
}
use concurrentfw.AbaWrapper.{Content, content, same}

-- `atomic_dw_cas`: the content afterwards, whether it was exchanged, and `expected` afterwards.
unfoldable pub dw_cas : Content → Content → Content → Content × Bool × Content
dw_cas memory expected desired =
    if same memory expected then (desired, true, expected) else (memory, false, memory)

-- the constructor: the counter starts at 1
unfoldable pub construct : ℕ → Content
construct init = content init 1

unfoldable pub get : Content → ℕ
get memory = memory.value

unfoldable pub get_counter : Content → ℕ
get_counter memory = memory.counter

-- `desired`, from the value that the lambda gives and the counter in the cache
unfoldable pub next : ℕ → Content → ℕ → Content
next w cache new = content new ((cache.counter + 1) % 2 ^ w)

unfoldable pub others : List (Content → Content) → Content → Content
others [] memory = memory
others (f ∷ fs) memory = f memory

unfoldable pub rest : List (Content → Content) → List (Content → Content)
rest [] = []
rest (f ∷ fs) = fs

-- The loop of `modify`. The lambda gives the new value, or `none` where it returns false. The list
-- holds what the other threads do to the content ahead of each compare-and-swap, and is empty from
-- where they leave it alone. `none` means that the fuel ran out; else the content and `success`.
unfoldable pub modify_loop :
    ℕ
    → (ℕ → Option ℕ)
    → ℕ
    → List (Content → Content)
    → (cache memory : Content) → Option (Content × Bool)
unfolding dw_cas next others rest
modify_loop w modifier zero env cache memory = none
modify_loop w modifier (suc fuel) env cache memory = elim (modifier cache.value) [
  | none ↦ some (memory, false)
  | some new ↦
      let (memory', stored, cache') = dw_cas (others env memory) cache (next w cache new) in
      let again = modify_loop w modifier fuel (rest env) cache' memory' in
      if stored then some (memory', true) else again
]

-- `modify`: one round more than there are interferences.
unfoldable pub modify :
    ℕ → (ℕ → Option ℕ) → List (Content → Content) → Content → Option (Content × Bool)
unfolding modify_loop
modify w modifier env memory = modify_loop w modifier (suc (length env)) env memory memory
