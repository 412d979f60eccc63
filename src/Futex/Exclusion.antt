-- ===== src/Futex/Exclusion.antt =====
-- Mutual exclusion for the class `Futex` of src/concurrentfw/futex.hpp and src/futex.cpp.
pub mod Moves
use Moves.{IsExclusive, quiet-IsExclusive, run-IsExclusive, holds-after_wait, holds-after_wake}
use concurrentfw.Prelude.{
  ℕ, ◌≤◌, ◌≡◌, refl, ◌↔◌, ◌⊎◌, inl, inr, Bool, true, false, arith, ◌==◌, Bool-cases,
}
use concurrentfw.Futex.{Pc, outside, owner, wake_store, wake_call, initial, run, holds}
use concurrentfw.Futex.Kernel.{Kernel}
use concurrentfw.Futex.System.{
  System, init, Step, call, recover, access, wait_returns, wait_blocks, wait_ends, wake, Reach,
  start, later,
}

init-IsExclusive :
    (k : Kernel) (locked : Bool) → IsExclusive (init k locked).value (init k locked).pc
unfolding init
init-IsExclusive k true = record {
  small = omega arith;
  free = λ z. absurd (omega arith);
  unique = λ i j hi hj. ground arith;
  held = λ n. (0, refl);
}
init-IsExclusive k false = record {
  small = omega arith;
  free = λ z i. refl;
  unique = λ i j hi hj. cc;
  held = λ n. absurd (n refl);
}

module _ {k : Kernel} where
  Step-IsExclusive :
      {s t : System k} → Step k s t → IsExclusive s.value s.pc → IsExclusive t.value t.pc
  Step-IsExclusive (call i c e) inv = quiet-IsExclusive inv i _ e refl refl
  Step-IsExclusive (recover i e) inv = quiet-IsExclusive inv i _ e refl refl
  Step-IsExclusive (access i) inv = run-IsExclusive inv i _ refl
  Step-IsExclusive (wait_returns i c {a} e r) inv =
      quiet-IsExclusive inv i _ e refl (holds-after_wait c a)
  Step-IsExclusive (wait_blocks i c e b) inv = quiet-IsExclusive inv i _ e refl refl
  Step-IsExclusive (wait_ends i c {a} e r) inv =
      quiet-IsExclusive inv i _ e refl (holds-after_wait c a)
  Step-IsExclusive (wake i {a} e w) inv = quiet-IsExclusive inv i _ e refl (holds-after_wake a)

  pub Reach-IsExclusive :
      {locked : Bool} {s : System k} → Reach k locked s → IsExclusive s.value s.pc
  Reach-IsExclusive {locked} start = init-IsExclusive k locked
  Reach-IsExclusive (later r st) = Step-IsExclusive st (Reach-IsExclusive r)

  module _ {locked : Bool} {s : System k} (r : Reach k locked s) where
    open (Reach-IsExclusive r) use {small, free, unique, held}

    -- In every reachable state, whatever the kernel answers, at most one thread owns the futex.
    pub mutual_exclusion : (i j : ℕ) → holds (s.pc i) ≡ true → holds (s.pc j) ≡ true → i ≡ j
    mutual_exclusion = unique

    -- In every reachable state the word is 0, 1 or 2, and it is 0 exactly when no thread owns the
    -- futex.
    pub value-eq-zero_iff : (s.value ≤ 2) × ((s.value ≡ 0) ↔ ((i : ℕ) → holds (s.pc i) ≡ false))
    value-eq-zero_iff = (
      small,
      (
        free,
        λ none_holds. elim (Bool-cases (s.value == 0)) [
          | inl z ↦ ground arith
          | inr n ↦ let (i, h) = held (ground arith) in absurd (cc (none_holds i))
        ],
      ),
    )

    alone_value : (i : ℕ) → s.pc i ≡ owner → (s.value == 2) ≡ false → s.value ≡ 1
    alone_value i e alone = ground (arith, small, λ (z : s.value ≡ 0). free z i)

    -- In every reachable state, a thread that owns the futex and calls `unlock` either finds the
    -- word at 1, sets it to 0 and is done, or finds it at 2, leaves it at 1 and goes on to `wake`,
    -- whose store sets it to 0 ahead of the system call.
    pub unlock_branches :
        (i : ℕ)
        → s.pc i ≡ owner
        → ((s.value ≡ 1) × (run s.value owner ≡ (0, outside)))
          ⊎ ((s.value ≡ 2)
              × (run s.value owner ≡ (1, wake_store))
              × (run 1 wake_store ≡ (0, wake_call)))
    unfolding run
    unlock_branches i e = elim (Bool-cases (s.value == 2)) [
      | inl waiters ↦ inr (ground arith, ground arith, refl)
      | inr alone ↦ let one : s.value ≡ 1 = alone_value i e alone in inl (one, rw one refl)
    ]
