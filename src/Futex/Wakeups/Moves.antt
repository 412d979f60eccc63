-- ===== src/Futex/Wakeups/Moves.antt =====
-- The invariant behind the wake-ups (src/futex.cpp), and what keeps it.
use concurrentfw.Prelude.{
  ℕ, ◌≡◌, refl, ◌≢◌, ◌⊎◌, inl, inr, Bool, true, false, not, update, arith, ◌==◌, Bool-cases,
  ℕ_discrete,
}
use concurrentfw.Futex.{
  Call, Pc, outside, enter, first_exchange, next_exchange, about_to_wait, waiting, owner,
  wake_store, wake_call, thrown, run, after_wait, woken,
}

abbrev pub is_waiting : Pc → Bool
is_waiting (waiting c) = true
is_waiting _ = false

-- A thread at `p` that is awake and has yet to set the word to 2 or to wake a thread.
abbrev pub pending : Pc → Bool → Bool
pending (first_exchange c) b = true
pending (next_exchange c) b = true
pending wake_store b = true
pending wake_call b = true
pending (waiting c) b = not b
pending _ b = false

-- `blocked` says which threads the kernel has blocked.
pub record IsAwaited (value : ℕ) (blocked : ℕ → Bool) (pc : ℕ → Pc) : Type 0 where
  pub inside : (j : ℕ) → blocked j ≡ true → is_waiting (pc j) ≡ true
  pub covered :
      (j : ℕ) → blocked j ≡ true → (value ≡ 2) ⊎ ((m : ℕ) × (pending (pc m) (blocked m) ≡ true))

-- An access of its own keeps a thread pending, sets the word to 2, or is by a thread that was not
-- pending and leaves a word of 2 alone.
pub run-pending :
    (value : ℕ) (p : Pc) (b : Bool)
    → ((run value p).0 ≡ 2)
      ⊎ (pending (run value p).1 b ≡ true)
      ⊎ ((b ≡ true → b ≡ true) × (pending p b ≡ false) × (value ≡ 2 → (run value p).0 ≡ 2))
unfolding run
run-pending value (enter c) b = inr (inr (λ h. h, refl, ground arith))
run-pending value (first_exchange c) b = inl refl
run-pending value (next_exchange c) b = inl refl
run-pending value wake_store b = inr (inl refl)
run-pending value owner b = elim (Bool-cases (value == 2)) [
  | inl two ↦ inr (inl (ground arith))
  | inr other ↦ inr (inr (λ h. h, refl, ground arith))
]
run-pending value (waiting c) true = inr (inr (λ h. h, refl, λ h. h))
run-pending value (waiting c) false = inr (inl refl)
run-pending value wake_call b = inr (inl refl)
run-pending value outside b = inr (inr (λ h. h, refl, λ h. h))
run-pending value (about_to_wait c) b = inr (inr (λ h. h, refl, λ h. h))
run-pending value thrown b = inr (inr (λ h. h, refl, λ h. h))

pub run-is_waiting : (value : ℕ) (p : Pc) → is_waiting p ≡ true → is_waiting (run value p).1 ≡ true
unfolding run
run-is_waiting value (waiting c) h = refl
run-is_waiting value _ h = cc

-- After `futex_wait` a thread that was woken is pending.
pub after_wait-pending : (c : Call) (b : Bool) → pending (after_wait c woken) b ≡ true
unfolding after_wait
after_wait-pending c b = refl

module _ {value : ℕ} {blocked : ℕ → Bool} {pc : ℕ → Pc} (inv : IsAwaited value blocked pc)
    (i : ℕ) where
  open inv use {inside, covered}

  -- Thread `i` moves to `p'`, the word to `value'`, and the other threads stay as they are.
  pub move-IsAwaited :
      (p' : Pc) (value' : ℕ) (blocked' : ℕ → Bool)
      → ((j : ℕ) → i ≢ j → blocked' j ≡ blocked j)
      → (blocked' i ≡ true → is_waiting p' ≡ true)
      → (value' ≡ 2)
        ⊎ (pending p' (blocked' i) ≡ true)
        ⊎ ((blocked' i ≡ true → blocked i ≡ true)
            × (pending (pc i) (blocked i) ≡ false)
            × (value ≡ 2 → value' ≡ 2))
      → IsAwaited value' blocked' (update pc i p')
  move-IsAwaited p' value' blocked' same own why = record {
    inside = λ j bj. elim (ℕ_discrete i j) [
      | yes e ↦ ground (arith, own)
      | no ne ↦ ground (arith, inside j, same j ne)
    ];
    covered = λ j bj. moved j bj why;
  }
    where
      was_blocked :
          (j : ℕ) → blocked' j ≡ true → (blocked' i ≡ true → blocked i ≡ true) → blocked j ≡ true
      was_blocked j bj was = ground (arith, same j)

      moved :
          (j : ℕ)
          → blocked' j ≡ true
          → (value' ≡ 2)
            ⊎ (pending p' (blocked' i) ≡ true)
            ⊎ ((blocked' i ≡ true → blocked i ≡ true)
                × (pending (pc i) (blocked i) ≡ false)
                × (value ≡ 2 → value' ≡ 2))
          → (value' ≡ 2) ⊎ ((m : ℕ) × (pending (update pc i p' m) (blocked' m) ≡ true))
      moved j bj (inl e) = inl e
      moved j bj (inr (inl p)) = inr (i, ground arith)
      moved j bj (inr (inr (was, idle, keep))) = elim (covered j (was_blocked j bj was)) [
        | inl two ↦ inl (keep two)
        | inr (m, p) ↦ inr (m, ground (arith, same m))
      ]

  -- The system call of `wake`: where a thread was blocked, one is awake and still waiting.
  pub wake-IsAwaited :
      (p' : Pc) (blocked' : ℕ → Bool)
      → pc i ≡ wake_call
      → ((j : ℕ) → blocked j ≡ false → blocked' j ≡ false)
      → ((j : ℕ) → blocked j ≡ true → (m : ℕ) × (blocked m ≡ true) × (blocked' m ≡ false))
      → IsAwaited value blocked' (update pc i p')
  wake-IsAwaited p' blocked' e only some_woken = record {
    inside = λ j bj. ground (arith, inside j, inside i, only j);
    covered = λ j bj.
        let (m, was, now) = some_woken j (ground (arith, only j)) in
        inr (m, ground (arith, inside m, waiting-pending (pc m)));
  }
    where
      waiting-pending : (p : Pc) → is_waiting p ≡ true → pending p false ≡ true
      waiting-pending p h = ground arith
