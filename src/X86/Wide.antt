-- ===== src/X86/Wide.antt =====
-- The double-word operations of src/concurrentfw/atomic_asm_x86.hpp on 64-bit words: the slow and
-- the fast code do the same.
use concurrentfw.Prelude.{
  ℕ, zero, suc, ◌≤◌, ◌<◌, ◌≡◌, refl, ◌∙◌, inl, inr, true, false, some, List, [], ◌∷◌, arith, length,
  Bool-cases,
}
use concurrentfw.AbaWrapper.{Content, content, same}
use concurrentfw.AbaWrapper.Dwcas.{dw_cas, others, rest}
use concurrentfw.X86.{
  Registers, cmpxchg, slow_dw_load, fast_dw_load, store_loop, slow_dw_store, fast_dw_store,
  atomic_dw_cas, dw_load_i686, dw_store_i686, dw_cas_32,
}

-- Whatever the registers hold, the slow and the fast load and the one of i686 give the double word in
-- memory and leave it there, though two of them are a compare-and-swap.
pub dw_load_lem :
    (r : Registers) (memory : Content)
    → (slow_dw_load r memory ≡ (memory, memory))
      × (fast_dw_load memory ≡ (memory, memory))
      × (dw_load_i686 r memory ≡ (memory, memory))
unfolding slow_dw_load fast_dw_load dw_load_i686
dw_load_lem r memory = (ground arith, refl, ground arith)

-- One round of the loop.
store_loop_hit :
    (fuel : ℕ) (env : List (Content → Content)) (r : Registers) (memory : Content)
    → same (others env memory) (content r.ax r.dx) ≡ true
    → store_loop (suc fuel) env r memory ≡ some (content r.bx r.cx)
unfolding store_loop
store_loop_hit fuel env r memory hit = rw (hit, cmpxchg)

store_loop_miss :
    (fuel : ℕ) (env : List (Content → Content)) (r : Registers) (memory : Content)
    → same (others env memory) (content r.ax r.dx) ≡ false
    → store_loop (suc fuel) env r memory
      ≡ store_loop fuel
          (rest env)
          (record r { ax = (others env memory).value; dx = (others env memory).counter })
          (others env memory)
unfolding store_loop
store_loop_miss fuel env r memory miss = rw (miss, cmpxchg)

same_refl : (c : Content) → same c c ≡ true
same_refl c = ground arith

length-rest : (env : List (Content → Content)) → length (rest env) ≤ length env
unfolding rest
length-rest [] = omega arith
length-rest (f ∷ fs) = omega arith

-- With memory in the registers, a swap fails only after an interference.
store_loop-synced :
    (fuel : ℕ) (env : List (Content → Content)) (r : Registers) (memory : Content)
    → length env < fuel
    → store_loop fuel env (record r { ax = memory.value; dx = memory.counter }) memory
      ≡ some (content r.bx r.cx)
unfolding others rest
store_loop-synced zero env r memory h = absurd (omega arith)
store_loop-synced (suc fuel) [] r memory h = store_loop_hit fuel [] _ memory (same_refl memory)
store_loop-synced (suc fuel) (f ∷ fs) r memory h = elim (Bool-cases (same (f memory) memory)) [
  | inl hit ↦ store_loop_hit fuel (f ∷ fs) _ memory hit
  | inr miss ↦
      store_loop_miss fuel (f ∷ fs) _ memory miss
      ∙ store_loop-synced fuel fs r (f memory) (omega arith)
]

store_loop_lem :
    (env : List (Content → Content)) (r : Registers) (memory : Content)
    → store_loop (suc (suc (length env))) env r memory ≡ some (content r.bx r.cx)
store_loop_lem env r memory = elim (Bool-cases (same (others env memory) (content r.ax r.dx))) [
  | inl hit ↦ store_loop_hit _ env r memory hit
  | inr miss ↦
      store_loop_miss _ env r memory miss
      ∙ store_loop-synced (suc (length env)) (rest env) r (others env memory)
          (omega (arith, length-rest env))
]

-- Whatever the two plain reads find, and however often other threads change memory, the loop of the
-- slow store and of the one of i686 ends, two rounds after the last change at the latest, and these two
-- and the fast store leave the desired double word in memory.
pub dw_store_lem :
    (torn desired : Content) (env : List (Content → Content)) (memory : Content)
    → (slow_dw_store torn desired env memory ≡ some desired)
      × (fast_dw_store desired memory ≡ desired)
      × (dw_store_i686 torn desired env memory ≡ some desired)
unfolding slow_dw_store fast_dw_store dw_store_i686
dw_store_lem torn desired env memory =
    (store_loop_lem env _ memory, refl, store_loop_lem env _ memory)

-- The compare-and-swap in assembly, on words of 64 and of 32 bits, is the operation that the wrapper
-- uses: it exchanges exactly if
-- both words agree, and else loads memory into `expected`.
pub atomic_dw_cas-eq-dw_cas :
    (memory expected desired : Content)
    → (atomic_dw_cas memory expected desired ≡ dw_cas memory expected desired)
      × (dw_cas_32 memory expected desired ≡ dw_cas memory expected desired)
unfolding atomic_dw_cas dw_cas dw_cas_32
atomic_dw_cas-eq-dw_cas memory expected desired = (ground arith, ground arith)
