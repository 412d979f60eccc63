-- ===== src/Futex/Progress/Examples.antt =====
-- The theorem on calls on a free futex at a run of two threads (src/futex.cpp).
use concurrentfw.Prelude.{ℕ, ◌≤◌, ◌≡◌, refl, ◌⊎◌, inl, some, false, ℕ_discrete, arith}
use concurrentfw.Futex.{lock, failed, eagain, woke, run, holds, after_wait, after_wake}
use concurrentfw.Futex.Kernel.Waiters.{waiters_kernel}
use concurrentfw.Futex.System.{System, init, call, access, wait_returns, wake, Reach, start, later}
use concurrentfw.Futex.Calls.{calling}
use concurrentfw.Futex.Progress.{Untaken, begin, own, others, IsOver, free_futex_taken}

-- Thread 1 has called `lock`, found the futex taken, and is about to wait; thread 0 has set it free.
record Freed : Type 1 where
  state : System waiters_kernel
  reach : Reach waiters_kernel false state

freed : Freed
unfolding run init ℕ_discrete
freed = record {
  state = _;
  reach =
      later
        (later
          (later
            (later (later (later (later start (call 0 lock refl)) (access 0)) (call 1 lock refl))
              (access 1))
            (access 1))
          (access 0))
        (access 0);
}

-- The wait of thread 1 returns at once, thread 0 wakes nobody, and the exchange of thread 1 takes the
-- futex.
record Taken : Type 1 where
  state : System waiters_kernel
  untaken : Untaken 1 lock freed.state 2 state

taken : Taken
unfolding freed after_wait after_wake
taken = record {
  state = _;
  untaken =
      own
        (others
          (own begin
            (wait_returns 1 lock {a = failed eagain} refl ((λ e. absurd (omega (arith, e))), refl))
            refl refl (λ e. cc))
          (wake 0 {a = woke 0} refl (inl (refl, refl, λ j. refl))) (λ e. absurd (omega (arith, e)))
          refl)
        (access 1) refl refl (λ e. cc);
}

nobody : (j : ℕ) → holds (freed.state.pc j) ≡ false
unfolding freed
nobody j = ground arith

abbrev moves : ℕ
moves = 2

free_futex_taken_example :
    ((moves ≤ 1) × (calling (taken.state.pc 1) ≡ some lock))
    ⊎ ((moves ≤ 2) × IsOver lock (taken.state.pc 1))
unfolding freed
free_futex_taken_example = free_futex_taken freed.reach nobody 1 lock refl taken.untaken
