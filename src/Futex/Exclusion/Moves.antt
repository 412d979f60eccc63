-- ===== src/Futex/Exclusion/Moves.antt =====
-- The invariant behind mutual exclusion (src/futex.cpp): each move of a thread keeps it.
use concurrentfw.Prelude.{
  ℕ, ◌≤◌, ◌≡◌, refl, ◌≢◌, ◌⊎◌, inl, inr, true, false, update, arith, ◌==◌, Bool-cases,
}
use concurrentfw.Futex.{
  WaitAnswer, WakeAnswer, Call, Pc, outside, enter, first_exchange, next_exchange, about_to_wait,
  waiting, owner, wake_store, wake_call, thrown, run, holds, after_wait, after_wake, after_compare,
}

pub record IsExclusive (value : ℕ) (pc : ℕ → Pc) : Type 0 where
  pub small : value ≤ 2
  pub free : value ≡ 0 → (i : ℕ) → holds (pc i) ≡ false
  pub unique : (i j : ℕ) → holds (pc i) ≡ true → holds (pc j) ≡ true → i ≡ j
  pub held : value ≢ 0 → (i : ℕ) × (holds (pc i) ≡ true)

-- What the code does after a system call owns nothing.
pub holds-after_wait : (c : Call) (a : WaitAnswer) → holds (after_wait c a) ≡ false
unfolding after_wait
holds-after_wait c a = ground arith

pub holds-after_wake : (a : WakeAnswer) → holds (after_wake a) ≡ false
unfolding after_wake
holds-after_wake a = ground arith

pub holds-after_compare :
    (c : Call) (found : ℕ) → found ≢ 0 → holds (after_compare c (false, found)) ≡ false
unfolding after_compare
holds-after_compare c found ne = ground arith

module _ {value : ℕ} {pc : ℕ → Pc} (inv : IsExclusive value pc) (i : ℕ) where
  open inv use {small, free, unique, held}

  -- A thread that owns nothing moves on, and still owns nothing.
  pub quiet-IsExclusive :
      {p : Pc} (p' : Pc)
      → pc i ≡ p
      → holds p ≡ false
      → holds p' ≡ false
      → IsExclusive value (update pc i p')
  quiet-IsExclusive p' e out out' = record {
    small = small;
    free = λ z j. ground (arith, free z j);
    unique = λ j l hj hl. ground (arith, unique j l);
    held = λ n. let (j, h) = held n in (j, ground arith);
  }

  -- The compare-exchange and the exchange of a thread that does not own the futex.
  take-IsExclusive :
      (p' : Pc) (value' : ℕ)
      → holds (pc i) ≡ false
      → value' ≤ 2
      → value' ≢ 0
      → ((value ≡ 0) × (holds p' ≡ true)) ⊎ ((value ≢ 0) × (holds p' ≡ false))
      → IsExclusive value' (update pc i p')
  take-IsExclusive p' value' out fits ne (inl (z, own)) = record {
    small = fits;
    free = λ e. absurd (ne e);
    unique = λ j l hj hl. ground (arith, free z j, free z l);
    held = λ _. (i, ground arith);
  }
  take-IsExclusive p' value' out fits ne (inr (n, not_own)) = record {
    small = fits;
    free = λ e. absurd (ne e);
    unique = λ j l hj hl. ground (arith, unique j l);
    held = λ _. let (j, h) = held n in (j, ground arith);
  }

  owned-ne-zero : holds (pc i) ≡ true → value ≢ 0
  owned-ne-zero h z = ground (arith, free z i)

  pub run-IsExclusive :
      (p : Pc) → pc i ≡ p → IsExclusive (run value p).0 (update pc i (run value p).1)
  unfolding run
  run-IsExclusive (enter c) e = elim (Bool-cases (value == 0)) [
    | inl z ↦ take-IsExclusive _ _ (ground arith) (ground arith) (ground arith) (ground arith)
    | inr n ↦
        take-IsExclusive _ _ (ground arith) (ground arith) (ground arith)
          (ground (arith, holds-after_compare c value))
  ]
  run-IsExclusive (first_exchange c) e =
      take-IsExclusive _ 2 (ground arith) (omega arith) (omega arith) (ground arith)
  run-IsExclusive (next_exchange c) e =
      take-IsExclusive _ 2 (ground arith) (omega arith) (omega arith) (ground arith)
  run-IsExclusive owner e =
      let ne = owned-ne-zero (ground arith) in
      record {
        small = ground arith;
        free = λ z j. ground (arith, unique i j);
        unique = λ j l hj hl. ground (arith, unique j l);
        held = λ n. (i, ground arith);
      }
  run-IsExclusive wake_store e = record {
    small = omega arith;
    free = λ z j. ground (arith, unique i j);
    unique = λ j l hj hl. ground (arith, unique j l);
    held = λ n. absurd (n refl);
  }
  run-IsExclusive outside e = quiet-IsExclusive _ e refl refl
  run-IsExclusive (about_to_wait c) e = quiet-IsExclusive _ e refl refl
  run-IsExclusive (waiting c) e = quiet-IsExclusive _ e refl refl
  run-IsExclusive wake_call e = quiet-IsExclusive _ e refl refl
  run-IsExclusive thrown e = quiet-IsExclusive _ e refl refl
