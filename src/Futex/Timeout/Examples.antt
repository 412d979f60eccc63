-- ===== src/Futex/Timeout/Examples.antt =====
-- The theorems on how long `trylock_timeout` takes at concrete waits (src/futex.cpp).
use concurrentfw.Prelude.{
  ℕ, zero, suc, ◌*◌, ◌+◌, ◌≤◌, ◌≡◌, refl, inl, inr, List, [], ◌∷◌, ◌++◌, arith, ltb, if◌then◌else◌,
  Bool-cases, ap,
}
use concurrentfw.Futex.{outside, woken, failed, eintr, etimedout, run, loop, wait, after_wait}
use concurrentfw.Futex.Timeout.{
  TimedWait, rounds, proceed, wait_timeout, All, Waits, Refusal, IsFruitless, total,
  refuses_in_time, refuses_late,
}

-- A signal comes `d` after the wait has begun, if the timeout has not expired by then; the word is 2.
abbrev signal_after : ℕ → TimedWait
signal_after d = λ t.
    if ltb d t
    then record { elapsed = d; answer = failed eintr; found = 2 }
    else record { elapsed = t; answer = failed etimedout; found = 2 }

-- Woken after 30 at the latest, but another thread is faster.
abbrev overtaken : TimedWait
overtaken = λ t.
    if ltb 30 t
    then record { elapsed = 30; answer = woken; found = 1 }
    else record { elapsed = t; answer = failed etimedout; found = 1 }

abbrev expiring : TimedWait
expiring = λ t. record { elapsed = t; answer = failed etimedout; found = 0 }

abbrev waits : List TimedWait
waits = signal_after 40 ∷ overtaken ∷ []

-- The timeout is 50, and the call refuses after 120.
waited : wait_timeout 1 50 1 (waits ++ expiring ∷ []) ≡ (120, outside)
unfolding wait_timeout rounds proceed run loop wait after_wait
waited = refl

signal_after-Waits : (d : ℕ) → Waits (signal_after d)
signal_after-Waits d t e = elim (Bool-cases (ltb d t)) [
  | inl lt ↦ ground (arith, lt)
  | inr ge ↦ rw ge (omega arith)
]

overtaken-Waits : Waits overtaken
overtaken-Waits t e = elim (Bool-cases (ltb 30 t)) [
  | inl lt ↦ ground (arith, lt)
  | inr ge ↦ rw ge (omega arith)
]

refuses_in_time_example :
    (50 ≤ (wait_timeout 1 50 1 (waits ++ expiring ∷ [])).0)
    × Refusal 50 (waits ++ expiring ∷ []) (wait_timeout 1 50 1 (waits ++ expiring ∷ [])).0
unfolding All
refuses_in_time_example =
    refuses_in_time 1 50 1 (waits ++ expiring ∷ [])
      (signal_after-Waits 40, (overtaken-Waits, ((λ t e. omega arith), tt))) (ap (λ r. r.1) waited)

refuses_late_example : wait_timeout 1 50 1 (waits ++ expiring ∷ []) ≡ (total 50 waits + 50, outside)
unfolding All
refuses_late_example =
    refuses_late 1 50 1 waits expiring (inr (λ e. omega arith))
      ((inr (inr refl), (λ e. omega arith)), ((inl refl, (λ e. omega arith)), tt))
      (λ t. (λ e. refl, λ e. absurd (e refl))) refl

-- Signals after 40 each time hold up the refusal of a call with the timeout 50 for any time.
unfoldable repeated : ℕ → List TimedWait
repeated zero = []
repeated (suc n) = signal_after 40 ∷ repeated n

repeated-All : (n : ℕ) → All (λ k. IsFruitless (k 50)) (repeated n)
unfolding All repeated
repeated-All zero = tt
repeated-All (suc n) = ((inr (inr refl), λ e. omega arith), repeated-All n)

total-repeated : (n : ℕ) → total 50 (repeated n) ≡ 40 * n
unfolding total repeated
total-repeated zero = refl
total-repeated (suc n) = omega (arith, total-repeated n)

refused_later : (n : ℕ) → wait_timeout 1 50 1 (repeated n ++ expiring ∷ []) ≡ (40 * n + 50, outside)
refused_later n = rw (← total-repeated n) (
    refuses_late 1 50 1 (repeated n) expiring (inr (λ e. omega arith)) (repeated-All n)
      (λ t. (λ e. refl, λ e. absurd (e refl))) refl)
