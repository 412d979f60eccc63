-- ===== src/Futex/Examples.antt =====
-- The theorems on the class `Futex` (src/futex.cpp) at concrete inputs: two threads that contend for
-- the futex.
use concurrentfw.Prelude.{
  ℕ, ◌≤◌, ◌≡◌, refl, ◌↔◌, ◌⊎◌, inl, inr, true, false, Option, some, Bool-cases, update, ℕ_discrete,
}
use concurrentfw.Futex.{
  lock, trylock_timeout, outside, owner, wake_call, failed, etimedout, run, holds, after_wait,
}
use concurrentfw.Futex.Kernel.Waiters.{waiters_kernel}
use concurrentfw.Futex.System.{
  System, init, Step, call, access, wait_blocks, wait_ends, Reach, start, later,
}
use concurrentfw.Futex.Exclusion.{mutual_exclusion, value-eq-zero_iff}
use concurrentfw.Futex.Refinement.{LockStep, Owned, Step-LockStep}
use concurrentfw.Futex.Wakeups.{no_lost_wakeup}
use concurrentfw.Futex.Wakeups.Moves.{pending}
use concurrentfw.Futex.Calls.{Outcome, Answers, Step-Outcome}

-- Thread 0 owns the futex; thread 1 has called `lock`, found it taken, and is blocked.
record Contended : Type 1 where
  state : System waiters_kernel
  reach : Reach waiters_kernel false state

contended : Contended
unfolding run init ℕ_discrete
contended = record {
  state = _;
  reach =
      later
        (later
          (later (later (later (later start (call 0 lock refl)) (access 0)) (call 1 lock refl))
            (access 1))
          (access 1))
        (wait_blocks 1 lock refl (refl, refl));
}

-- From there, thread 0 has unlocked the futex and woken nobody so far.
releasing : Contended
unfolding contended
releasing = record { state = _; reach = later (later contended.reach (access 0)) (access 0) }

contended_state : (contended.state.value ≡ 2) × (contended.state.pc 0 ≡ owner)
unfolding contended
contended_state = (refl, refl)

releasing_state : (releasing.state.value ≡ 0) × (releasing.state.pc 0 ≡ wake_call)
unfolding releasing
releasing_state = (refl, refl)

mutual_exclusion_example : ◌≡◌ {A = ℕ} 0 0
unfolding contended
mutual_exclusion_example = mutual_exclusion contended.reach 0 0 refl refl

value-eq-zero_iff_example :
    (releasing.state.value ≤ 2)
    × ((releasing.state.value ≡ 0) ↔ ((i : ℕ) → holds (releasing.state.pc i) ≡ false))
value-eq-zero_iff_example = value-eq-zero_iff releasing.reach

no_lost_wakeup_example :
    ((j : ℕ) × (releasing.state.value ≡ 2) × (holds (releasing.state.pc j) ≡ true))
    ⊎ ((j : ℕ) × (pending (releasing.state.pc j) (waiters_kernel.blocked releasing.state.queue j)
          ≡ true))
unfolding releasing
no_lost_wakeup_example = no_lost_wakeup releasing.reach 1 refl

-- Thread 1 calls `trylock_timeout` while thread 0 owns the futex, and its wait times out.
timing_out : Contended
unfolding run init ℕ_discrete
timing_out = record {
  state = _;
  reach =
      later
        (later
          (later
            (later (later (later start (call 0 lock refl)) (access 0))
              (call 1 trylock_timeout refl))
            (access 1))
          (access 1))
        (wait_blocks 1 trylock_timeout refl (refl, refl));
}

timed_out : System waiters_kernel
timed_out = record timing_out.state {
  queue = update timing_out.state.queue 1 false;
  pc = update timing_out.state.pc 1 outside;
}

at_timeout : Step waiters_kernel timing_out.state timed_out
unfolding timing_out timed_out after_wait
at_timeout = wait_ends 1 trylock_timeout {a = failed etimedout} refl (refl, λ free. cc)

Step-Outcome_example :
    Outcome trylock_timeout timing_out.state.value timed_out.value
      (Answers timing_out.state 1)
      (timed_out.pc 1)
unfolding timing_out
Step-Outcome_example = Step-Outcome 1 at_timeout refl

-- Thread 0 has found waiters, and its store comes next.
storing : Contended
unfolding contended
storing = record { state = _; reach = later contended.reach (access 0) }

storing_owner : Owned storing.state.pc (some 0)
unfolding storing
storing_owner = (
  refl,
  λ j ne. elim (Bool-cases (holds (storing.state.pc j))) [
    | inl h ↦ absurd (ne (mutual_exclusion storing.reach 0 j refl h))
    | inr n ↦ n
  ],
)

Step-LockStep_example :
    (o : Option ℕ) × Owned
      (update storing.state.pc 0 (run storing.state.value (storing.state.pc 0)).1)
      o
    × LockStep 0
        (storing.state.pc 0)
        (update storing.state.pc 0 (run storing.state.value (storing.state.pc 0)).1 0)
        storing.state.value
        (run storing.state.value (storing.state.pc 0)).0
        (some 0)
        o
Step-LockStep_example = Step-LockStep storing.reach (access 0) storing_owner
