-- ===== src/MutexTest/Examples.antt =====
-- The theorems on the workers of src/tests/test_futex.cpp at concrete runs.
use concurrentfw.Prelude.{
  ℕ, zero, suc, ◌+◌, ◌%◌, ◌^◌, ◌≡◌, refl, ◌⊎◌, inl, inr, dec_lt, arith, ℕ_discrete,
}
use concurrentfw.Atomic.{fetch_add}
use concurrentfw.Futex.{run}
use concurrentfw.Futex.Kernel.Waiters.{waiters_kernel}
use concurrentfw.Futex.System.{init, access}
use concurrentfw.MutexTest.{
  passes_bits, main, finished, Bench, Reach, start, later, prepared, dependent, trylock_fail, stops,
  leaves, calls, moves, enters, finds_busy, loads, stores, unlocked, adds, after_unlock,
}
use concurrentfw.MutexTest.Agree.{flying, passes_in_flight, counters_agree}
use concurrentfw.MutexTest.Held.{held_counts_nothing}

record Run (n : ℕ) : Type 1 where
  state : Bench waiters_kernel
  reach : Reach waiters_kernel (dependent n) state

-- Worker 1 has stored a pass and is about to call `unlock`; worker 2 is in `lock`.
counted_once : Run 2
unfolding run prepared dependent init ℕ_discrete dec_lt
counted_once = record {
  state = _;
  reach =
      later
        (later
          (later
            (later (later (later start (calls 1 0 refl refl refl)) (calls 2 0 refl refl refl))
              (moves 1 0 refl (inl (refl, λ e. cc)) (access 1) refl refl))
            (enters 1 refl refl))
          (loads 1 refl))
        (stores 1 0 0 refl refl);
}

passes_in_flight_example :
    (counted_once.state.tuple 0).passes_locked
    ≡ ((counted_once.state.tuple 0).passes_atomic + flying (dependent 2) counted_once.state 0)
      % 2 ^ passes_bits
unfolding dependent
passes_in_flight_example = passes_in_flight (dependent 2) refl counted_once.reach 0

-- The only worker has made a pass and left.
over : Run 1
unfolding run prepared dependent init ℕ_discrete dec_lt fetch_add after_unlock
over = record {
  state = _;
  reach =
      later
        (later
          (later
            (later
              (later
                (later
                  (later
                    (later
                      (later (later start (calls 1 0 refl refl refl))
                        (moves 1 0 refl (inl (refl, λ e. cc)) (access 1) refl refl))
                      (enters 1 refl refl))
                    (loads 1 refl))
                  (stores 1 0 0 refl refl))
                (moves 1 0 refl (inr refl) (access 1) refl refl))
              (unlocked 1 refl refl))
            (adds 1 0 refl refl))
          stops)
        (leaves 1 refl refl);
}

over_passes : (over.state.tuple 0).passes_locked ≡ 1
unfolding over
over_passes = refl

all_left : (i : ℕ) → ((over.state.worker i).stage ≡ finished) ⊎ ((over.state.worker i).stage ≡ main)
unfolding over ℕ_discrete dec_lt prepared dependent
all_left zero = inr refl
all_left (suc zero) = inl refl
all_left (suc (suc i)) = inr (ground arith)

counters_agree_example : (over.state.tuple 0).passes_locked ≡ (over.state.tuple 0).passes_atomic
unfolding dependent
counters_agree_example = counters_agree (dependent 1) refl over.reach all_left 0

-- `main` holds the mutex, and the only worker has not got it.
record Failed : Type 1 where
  state : Bench waiters_kernel
  reach : Reach waiters_kernel (trylock_fail 1) state

failing : Failed
unfolding run prepared trylock_fail init ℕ_discrete dec_lt
failing = record {
  state = _;
  reach =
      later
        (later (later start (calls 1 0 refl refl refl))
          (moves 1 0 refl (inl (refl, λ e. cc)) (access 1) refl refl))
        (finds_busy 1 refl refl refl);
}

held_counts_nothing_example : (failing.state.tuple 0).passes_locked ≡ 0
unfolding trylock_fail
held_counts_nothing_example = held_counts_nothing (trylock_fail 1) refl failing.reach 0
