-- ===== src/Futex/Timeout.antt =====
-- How long `trylock_timeout` of src/concurrentfw/futex.hpp takes once its compare-exchange has failed:
-- `wait_timeout` of src/futex.cpp, with the timeout that it hands to each `futex_wait` and the time
-- that each takes. Nothing else takes time.
mod Examples
use concurrentfw.Prelude.{
  ℕ, zero, suc, ◌+◌, ◌*◌, ◌≤◌, ◌<◌, ◌≡◌, refl, ◌≢◌, ◌⊎◌, inl, inr, List, [], ◌∷◌, ◌++◌, arith, ◌∙◌,
  ap, Bool-cases, ◌==◌,
}
use concurrentfw.Futex.{
  Call, trylock_timeout, Pc, outside, about_to_wait, first_exchange, next_exchange, owner, thrown,
  WaitAnswer, woken, failed, eagain, eintr, etimedout, other, run, loop, wait, after_wait,
}

-- One `futex_wait` and the exchange behind it: how long it takes, what it answers, and the word that
-- the exchange finds if it is made.
pub record Round : Type 0 where
  pub elapsed : ℕ
  pub answer : WaitAnswer
  pub found : ℕ

-- A round for every timeout that `futex_wait` may be handed: what the kernel and the other threads
-- do, before it is known what the code asks for.
abbrev pub TimedWait : Type 0
TimedWait = ℕ → Round

-- Where the call goes on after a round.
abbrev pub after_round : Round → Pc
after_round r = (run r.found (after_wait trylock_timeout r.answer)).1

-- The time that has passed and where the call is, if the loop is left at `p` and if it is not.
unfoldable pub proceed : ℕ → Pc → ℕ × Pc → ℕ × Pc
proceed elapsed (about_to_wait c) (time, end) = (elapsed + time, end)
proceed elapsed p later = (elapsed, p)

-- The loop from ahead of its `futex_wait`: the time that has passed when it is left, or when the
-- rounds are over, and where the call is then.
unfoldable pub rounds : (timeout_relative : ℕ) → List TimedWait → ℕ × Pc
unfolding proceed
rounds timeout_relative [] = (0, about_to_wait trylock_timeout)
rounds timeout_relative (futex_wait ∷ ks) =
    let r = futex_wait timeout_relative in
    proceed r.elapsed (after_round r) (rounds timeout_relative ks)

-- The whole call. `found` is the word that the exchange ahead of the loop finds, if it is made.
unfoldable pub wait_timeout : (cached_state timeout_relative found : ℕ) → List TimedWait → ℕ × Pc
unfolding proceed rounds wait run
wait_timeout cached_state timeout_relative found ks =
    proceed 0 (run found (wait trylock_timeout cached_state)).1 (rounds timeout_relative ks)

-- What futex(2) documents of a wait with a timeout: `ETIMEDOUT` is answered once it has expired.
abbrev pub Waits : TimedWait → Type 0
Waits k = (t : ℕ) → (k t).answer ≡ failed etimedout → t ≤ (k t).elapsed

-- A kernel that is never late: `ETIMEDOUT` comes at the timeout, and any other answer before it.
abbrev pub IsPunctual : TimedWait → Type 0
IsPunctual k =
    (t : ℕ)
    → ((k t).answer ≡ failed etimedout → (k t).elapsed ≡ t)
      × ((k t).answer ≢ failed etimedout → (k t).elapsed < t)

unfoldable pub All : (TimedWait → Type 0) → List TimedWait → Type 0
All P [] = Unit
All P (k ∷ ks) = P k × All P ks

-- The wait was woken, interrupted, or not begun since the word was not 2, and another thread owns the
-- futex at the exchange.
abbrev pub IsFruitless : Round → Type 0
IsFruitless r =
    ((r.answer ≡ woken) ⊎ ((r.answer ≡ failed eagain) ⊎ (r.answer ≡ failed eintr))) × (r.found ≢ 0)

-- What a refusal at `time` comes from: fruitless waits, and one that lasts for the whole timeout.
pub data Refusal (timeout : ℕ) : List TimedWait → ℕ → Type 0 where
  expires :
      {ks : List TimedWait} (k : TimedWait)
      → (k timeout).answer ≡ failed etimedout
      → timeout ≤ (k timeout).elapsed
      → Refusal timeout (k ∷ ks) (k timeout).elapsed
  resumes :
      {ks : List TimedWait} {time : ℕ} (k : TimedWait)
      → IsFruitless (k timeout)
      → Refusal timeout ks time
      → Refusal timeout (k ∷ ks) ((k timeout).elapsed + time)

-- How a round ends.
pub data Ends (r : Round) : Pc → Type 0 where
  timed_out : r.answer ≡ failed etimedout → Ends r outside
  fruitless : IsFruitless r → Ends r (about_to_wait trylock_timeout)
  taken : Ends r owner
  failing : Ends r thrown

exchange-Ends :
    (r : Round)
    → ((r.answer ≡ woken) ⊎ ((r.answer ≡ failed eagain) ⊎ (r.answer ≡ failed eintr)))
    → Ends r (loop trylock_timeout r.found)
unfolding loop
exchange-Ends r a = elim (Bool-cases (r.found == 0)) [
  | inl z ↦ rw z taken
  | inr n ↦ rw n (fruitless (a, ground (arith, n)))
]

answer-Ends :
    (r : Round) (a : WaitAnswer)
    → r.answer ≡ a
    → Ends r (run r.found (after_wait trylock_timeout a)).1
unfolding run after_wait
answer-Ends r woken e = exchange-Ends r (inl e)
answer-Ends r (failed eagain) e = exchange-Ends r (inr (inl e))
answer-Ends r (failed eintr) e = exchange-Ends r (inr (inr e))
answer-Ends r (failed etimedout) e = timed_out e
answer-Ends r (failed (other n)) e = failing

-- What a call that refuses comes from.
abbrev Refused : (timeout : ℕ) → List TimedWait → ℕ × Pc → Type 0
Refused timeout ks (time, end) = end ≡ outside → (timeout ≤ time) × Refusal timeout ks time

rounds-Refused :
    (timeout : ℕ) (ks : List TimedWait) → All Waits ks → Refused timeout ks (rounds timeout ks)
unfolding rounds All proceed
rounds-Refused timeout [] ws = λ e. cc
rounds-Refused timeout (k ∷ ks) (w, ws) =
    proceed-Refused (rounds timeout ks) (answer-Ends (k timeout) (k timeout).answer refl)
      (rounds-Refused timeout ks ws)
  where
    proceed-Refused :
        (later : ℕ × Pc) {p : Pc}
        → Ends (k timeout) p
        → Refused timeout ks later
        → Refused timeout (k ∷ ks) (proceed (k timeout).elapsed p later)
    proceed-Refused (time, end) (timed_out e) r = λ _. (w timeout e, expires k e (w timeout e))
    proceed-Refused (time, end) (fruitless f) r =
        λ o. (let (long, why) = r o in (omega (arith, long), resumes k f why))
    proceed-Refused (time, end) taken r = λ o. cc
    proceed-Refused (time, end) failing r = λ o. cc

-- Ahead of the loop the futex is taken, or the call comes to wait.
loop-cases :
    (cached_state : ℕ)
    → (loop trylock_timeout cached_state ≡ owner)
      ⊎ (loop trylock_timeout cached_state ≡ about_to_wait trylock_timeout)
unfolding loop
loop-cases cached_state = ground arith

head-cases :
    (cached_state found : ℕ)
    → ((run found (wait trylock_timeout cached_state)).1 ≡ owner)
      ⊎ ((run found (wait trylock_timeout cached_state)).1 ≡ about_to_wait trylock_timeout)
unfolding wait run loop
head-cases cached_state found = ground (arith, loop-cases found, loop-cases cached_state)

proceed-outside :
    (p : Pc) (later : ℕ × Pc)
    → (p ≡ owner) ⊎ (p ≡ about_to_wait trylock_timeout)
    → (proceed 0 p later).1 ≡ outside
    → proceed 0 p later ≡ later
unfolding proceed
proceed-outside p later (inl o) e = let h : owner ≡ outside = (rw o at e) in absurd (cc)
proceed-outside p (time, end) (inr w) e = rw w (ap (λ n. (n, end)) (omega arith))

-- If `futex_wait` answers ETIMEDOUT only once the timeout that it was handed has passed, a call of
-- `trylock_timeout` whose compare-exchange has failed refuses only after the call's own timeout, and
-- only after fruitless waits and one wait that has lasted for the whole timeout alone.
pub refuses_in_time :
    (cached_state timeout found : ℕ) (ks : List TimedWait)
    → All Waits ks
    → (wait_timeout cached_state timeout found ks).1 ≡ outside
    → (timeout ≤ (wait_timeout cached_state timeout found ks).0)
      × Refusal timeout ks (wait_timeout cached_state timeout found ks).0
unfolding wait_timeout
refuses_in_time cached_state timeout found ks ws e =
    let out =
      proceed-outside (run found (wait trylock_timeout cached_state)).1 (rounds timeout ks)
        (head-cases cached_state found) e in
    rw out (rounds-Refused timeout ks ws (rw out at e))

-- The time of all the waits, if each is handed the same timeout.
unfoldable pub total : ℕ → List TimedWait → ℕ
total timeout [] = 0
total timeout (k ∷ ks) = (k timeout).elapsed + total timeout ks

fruitless-after_round : (r : Round) → IsFruitless r → after_round r ≡ about_to_wait trylock_timeout
unfolding run after_wait loop
fruitless-after_round r (inl a, owned) = rw a (ground arith)
fruitless-after_round r (inr (inl a), owned) = rw a (ground arith)
fruitless-after_round r (inr (inr a), owned) = rw a (ground arith)

expired-after_round : (r : Round) → r.answer ≡ failed etimedout → after_round r ≡ outside
unfolding run after_wait
expired-after_round r e = rw e refl

rounds-total :
    (timeout : ℕ) (ks : List TimedWait) (last : TimedWait)
    → All (λ k. IsFruitless (k timeout)) ks
    → (last timeout).answer ≡ failed etimedout
    → rounds timeout (ks ++ last ∷ []) ≡ (total timeout ks + (last timeout).elapsed, outside)
unfolding rounds All total proceed
rounds-total timeout [] last fs e =
    rw (expired-after_round (last timeout) e) (ap (λ n. (n, outside)) (omega arith))
rounds-total timeout (k ∷ ks) last (f, fs) e =
    rw (fruitless-after_round (k timeout) f, rounds-total timeout ks last fs e)
      (ap (λ n. (n, outside)) (omega arith))

head-waits :
    (cached_state found : ℕ)
    → (cached_state ≡ 2) ⊎ (found ≢ 0)
    → (run found (wait trylock_timeout cached_state)).1 ≡ about_to_wait trylock_timeout
unfolding wait run loop
head-waits cached_state found held = ground (arith, held)

-- A call of `trylock_timeout` that comes to wait since another thread owns the futex hands its full
-- timeout to every wait: if some waits with that timeout are fruitless, and the next one expires and
-- is not late, then the call refuses after the time of all the fruitless waits with the whole timeout
-- on top of it.
pub refuses_late :
    (cached_state timeout found : ℕ) (ks : List TimedWait) (last : TimedWait)
    → (cached_state ≡ 2) ⊎ (found ≢ 0)
    → All (λ k. IsFruitless (k timeout)) ks
    → IsPunctual last
    → (last timeout).answer ≡ failed etimedout
    → wait_timeout cached_state timeout found (ks ++ last ∷ [])
      ≡ (total timeout ks + timeout, outside)
unfolding wait_timeout
refuses_late cached_state timeout found ks last held fs punctual e =
    rw
      (
        head-waits cached_state found held,
        rounds-total timeout ks last fs e,
        (punctual timeout).0 e,
      )
      (ap (λ n. (n, outside)) (omega arith))
