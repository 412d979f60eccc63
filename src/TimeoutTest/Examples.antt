-- ===== src/TimeoutTest/Examples.antt =====
-- The theorem on "check multiple timeout Futex locks" (src/tests/test_futex.cpp) at a run of two threads.
use concurrentfw.Prelude.{◌≡◌, refl, inl, ℕ_discrete}
use concurrentfw.Atomic.{add_fetch, sub_fetch, or_fetch}
use concurrentfw.Futex.{run}
use concurrentfw.Futex.Kernel.Waiters.{waiters_kernel}
use concurrentfw.Futex.System.{init, access}
use concurrentfw.TimeoutTest.{
  Test, Reach, start, later, prepared, calls, moves, enters, adds, detects, reports_locked,
  subtracts,
}
use concurrentfw.TimeoutTest.Detector.{detector_lem}

record Run : Type 1 where
  state : Test waiters_kernel
  reach : Reach waiters_kernel state

-- Thread 1 has been behind the futex, and is about to unlock it; thread 2 has called.
been_inside : Run
unfolding run prepared init ℕ_discrete add_fetch or_fetch sub_fetch
been_inside = record {
  state = _;
  reach =
      later
        (later
          (later
            (later
              (later
                (later (later (later start (calls 1 refl refl)) (calls 2 refl refl))
                  (moves 1 (inl (refl, λ e. cc)) (access 1) refl refl))
                (enters 1 refl refl))
              (adds 1 refl))
            (detects 1 1 refl))
          (reports_locked 1 refl))
        (subtracts 1 refl);
}

detector_lem_example : been_inside.state.detector ≡ 1
unfolding been_inside
detector_lem_example = detector_lem been_inside.reach refl
