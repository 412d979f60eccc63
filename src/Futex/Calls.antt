-- ===== src/Futex/Calls.antt =====
-- How the calls `lock`, `trylock` and `trylock_timeout` of src/concurrentfw/futex.hpp come to their
-- end, and on what answers of the system call.
use concurrentfw.Prelude.{
  ℕ, ◌≡◌, refl, ◌≢◌, ◌⊎◌, inl, inr, Bool, false, Option, none, some, update, update_self, arith,
  ◌==◌, Bool-cases, ℕ_discrete,
}
use concurrentfw.Futex.{
  Call, lock, trylock, trylock_timeout, Pc, outside, enter, first_exchange, next_exchange,
  about_to_wait, waiting, owner, wake_store, wake_call, thrown, Errno, eagain, eintr, etimedout,
  other, WaitAnswer, woken, failed, locked_waiters, run, holds, loop, after_compare, after_wait,
}
use concurrentfw.Futex.Kernel.{Kernel}
use concurrentfw.Futex.System.{
  System, Step, call, recover, access, wait_returns, wait_blocks, wait_ends, wake, Reach,
}
use concurrentfw.Futex.Exclusion.{value-eq-zero_iff}

-- the call that a thread is in
abbrev pub calling : Pc → Option Call
calling (enter c) = some c
calling (first_exchange c) = some c
calling (about_to_wait c) = some c
calling (waiting c) = some c
calling (next_exchange c) = some c
calling _ = none

-- What a step of a thread in call `c` may come to. `Answered a` says that the system call answered
-- `a` to it; `value` and `value'` are the word before and after.
pub data Outcome (c : Call) (value value' : ℕ) (Answered : WaitAnswer → Type 0) (p : Pc)
    : Type 0 where
  goes_on : calling p ≡ some c → Outcome c value value' Answered p
  takes : p ≡ owner → value ≡ 0 → value' ≢ 0 → Outcome c value value' Answered p
  is_busy :
      p ≡ outside → c ≡ trylock → value ≢ 0 → value' ≡ value → Outcome c value value' Answered p
  gives_up :
      p ≡ outside
      → c ≡ trylock_timeout
      → Answered (failed etimedout)
      → Outcome c value value' Answered p
  throws :
      (e : Errno)
      → p ≡ thrown
      → Answered (failed e)
      → e ≢ eagain
      → e ≢ eintr
      → (c ≡ trylock_timeout → e ≢ etimedout)
      → Outcome c value value' Answered p

loop-Outcome :
    (c : Call) (value : ℕ) (Answered : WaitAnswer → Type 0)
    → Outcome c value 2 Answered (loop c value)
unfolding loop
loop-Outcome c value Answered = elim (Bool-cases (value == 0)) [
  | inl z ↦ rw z (takes refl (ground arith) (omega arith))
  | inr n ↦ rw n (goes_on refl)
]

after_compare-calling :
    (c : Call) (value : ℕ)
    → c ≢ trylock
    → value ≢ 0
    → calling (after_compare c (false, value)) ≡ some c
unfolding after_compare
after_compare-calling lock value ne n = ground arith
after_compare-calling trylock value ne n = absurd (ne refl)
after_compare-calling trylock_timeout value ne n = ground arith

enter-Outcome :
    (c : Call) (value : ℕ) (Answered : WaitAnswer → Type 0)
    → Outcome c value (run value (enter c)).0 Answered (run value (enter c)).1
unfolding run
enter-Outcome c value Answered = elim (Bool-cases (value == 0)) [
  | inl z ↦ takes (ground arith) (ground arith) (ground arith)
  | inr n ↦ lost c (ground arith)
]
  where
    lost :
        (d : Call)
        → value ≢ 0
        → Outcome d value (run value (enter d)).0 Answered (run value (enter d)).1
    lost lock n = goes_on (ground (arith, after_compare-calling lock value))
    lost trylock n = is_busy (ground arith) refl n (ground arith)
    lost trylock_timeout n = goes_on (ground (arith, after_compare-calling trylock_timeout value))

run-Outcome :
    (c : Call) (value : ℕ) (Answered : WaitAnswer → Type 0) (p : Pc)
    → calling p ≡ some c
    → Outcome c value (run value p).0 Answered (run value p).1
unfolding run
run-Outcome c value Answered (enter d) e =
    let same : d ≡ c = ground arith in rw same (enter-Outcome c value Answered)
run-Outcome c value Answered (first_exchange d) e =
    let same : d ≡ c = ground arith in rw same (loop-Outcome c value Answered)
run-Outcome c value Answered (next_exchange d) e =
    let same : d ≡ c = ground arith in rw same (loop-Outcome c value Answered)
run-Outcome c value Answered (about_to_wait d) e = goes_on e
run-Outcome c value Answered (waiting d) e = goes_on e
run-Outcome c value Answered outside e = absurd (cc)
run-Outcome c value Answered owner e = absurd (cc)
run-Outcome c value Answered wake_store e = absurd (cc)
run-Outcome c value Answered wake_call e = absurd (cc)
run-Outcome c value Answered thrown e = absurd (cc)

-- The tests on the answer of `futex_wait`.
after_wait-Outcome :
    (c : Call) (value : ℕ) (Answered : WaitAnswer → Type 0) (a : WaitAnswer)
    → Answered a
    → Outcome c value value Answered (after_wait c a)
unfolding after_wait
after_wait-Outcome c value Answered woken h = goes_on refl
after_wait-Outcome c value Answered (failed eagain) h = goes_on refl
after_wait-Outcome c value Answered (failed eintr) h = goes_on refl
after_wait-Outcome lock value Answered (failed etimedout) h =
    throws etimedout refl h (ground arith) (ground arith) (ground arith)
after_wait-Outcome trylock value Answered (failed etimedout) h =
    throws etimedout refl h (ground arith) (ground arith) (ground arith)
after_wait-Outcome trylock_timeout value Answered (failed etimedout) h = gives_up refl refl h
after_wait-Outcome c value Answered (failed (other e)) h =
    throws (other e) refl h (ground arith) (ground arith) (ground arith)

module _ {k : Kernel} where
  open k use {Returns, Ends}

  -- The system call, made by thread `i` in state `s`, answers `a`.
  abbrev pub Answers : System k → ℕ → WaitAnswer → Type 0
  Answers s i a = Returns s.queue i s.value locked_waiters a ⊎ ((q : k.Queue) × Ends s.queue i a q)

  Ending : System k → ℕ → Call → System k → Type 0
  Ending s i c t = Outcome c s.value t.value (Answers s i) (t.pc i)

  -- Another thread `m` moves.
  others :
      (s : System k) (m i : ℕ) (c : Call) (p : Pc) (value : ℕ)
      → m ≢ i
      → calling (s.pc i) ≡ some c
      → Outcome c s.value value (Answers s i) (update s.pc m p i)
  others s m i c p value ne e = goes_on (ground arith)

  own_access :
      (s : System k) (i : ℕ) (c : Call)
      → calling (s.pc i) ≡ some c
      → Outcome c s.value
          (run s.value (s.pc i)).0
          (Answers s i)
          (update s.pc i (run s.value (s.pc i)).1 i)
  own_access s i c h = rw update_self (run-Outcome c s.value (Answers s i) (s.pc i) h)

  own_answer :
      (s : System k) (i : ℕ) (c d : Call) (a : WaitAnswer)
      → calling (s.pc i) ≡ some d
      → calling (s.pc i) ≡ some c
      → Answers s i a
      → Outcome c s.value s.value (Answers s i) (update s.pc i (after_wait d a) i)
  own_answer s i c d a e h r =
      let same : d ≡ c = ground arith in
      rw (update_self, same) (after_wait-Outcome c s.value (Answers s i) a r)

  -- A step takes a thread in a call nowhere but further on in the call, to the futex, which was
  -- free before the step and is not after it, out of `trylock` with the word as it was and not 0,
  -- out of `trylock_timeout` on the answer ETIMEDOUT, or out by an exception on an answer that is
  -- neither EAGAIN nor EINTR, and in `trylock_timeout` not ETIMEDOUT. So `lock` returns only with
  -- the futex.
  pub Step-Outcome :
      {s t : System k} (i : ℕ) {c : Call}
      → Step k s t
      → calling (s.pc i) ≡ some c
      → Outcome c s.value t.value (Answers s i) (t.pc i)
  Step-Outcome {s} i {c} (call m d e) h = elim (ℕ_discrete m i) [
    | yes same ↦ absurd (ground arith)
    | no ne ↦ others s m i c _ _ ne h
  ]
  Step-Outcome {s} i {c} (recover m e) h = elim (ℕ_discrete m i) [
    | yes same ↦ absurd (ground arith)
    | no ne ↦ others s m i c _ _ ne h
  ]
  Step-Outcome {s} i {c} (access m) h = elim (ℕ_discrete m i) [
    | yes same ↦ rw same (own_access s i c h)
    | no ne ↦ others s m i c _ _ ne h
  ]
  Step-Outcome {s} i {c} (wait_returns m d {a} e r) h = elim (ℕ_discrete m i) [
    | yes same ↦ rw same (own_answer s i c d a (ground arith) h (inl (rw same at r)))
    | no ne ↦ others s m i c _ _ ne h
  ]
  Step-Outcome {s} i {c} (wait_blocks m d e b) h = elim (ℕ_discrete m i) [
    | yes same ↦ goes_on (ground arith)
    | no ne ↦ others s m i c _ _ ne h
  ]
  Step-Outcome {s} i {c} (wait_ends m d {a} {q} e r) h = elim (ℕ_discrete m i) [
    | yes same ↦ rw same (own_answer s i c d a (ground arith) h (inr (q, rw same at r)))
    | no ne ↦ others s m i c _ _ ne h
  ]
  Step-Outcome {s} i {c} (wake m e w) h = elim (ℕ_discrete m i) [
    | yes same ↦ absurd (ground arith)
    | no ne ↦ others s m i c _ _ ne h
  ]

  -- In a reachable state `trylock` is one access: it takes the futex if no thread owns it, and
  -- returns false with the word as it was if some thread does.
  pub trylock_decides :
      {locked : Bool} {s : System k}
      → Reach k locked s
      → (((i : ℕ) → holds (s.pc i) ≡ false) × (run s.value (enter trylock) ≡ (1, owner)))
        ⊎ ((¬ ((i : ℕ) → holds (s.pc i) ≡ false))
            × (run s.value (enter trylock) ≡ (s.value, outside)))
  unfolding run after_compare
  trylock_decides {s} r = elim (Bool-cases (s.value == 0)) [
    | inl z ↦ inl ((value-eq-zero_iff r).1.0 (ground arith), ground arith)
    | inr n ↦ inr (λ free. absurd (ground (arith, (value-eq-zero_iff r).1.1 free)), ground arith)
  ]
