-- ===== src/MutexTest.antt =====
-- src/tests/test_futex.cpp: the worker threads of the class `TestMutexBenchmark`, which share a
-- family of counters, each behind a `Futex` of its own. The counters are one memory for all threads;
-- Futex/Publication says what the owner of a `Futex` sees.
pub mod Moves
pub mod Invariant
pub mod Count
pub mod Agree
pub mod Held
mod Examples
use concurrentfw.Prelude.{
  ℕ, zero, suc, ◌+◌, ◌%◌, ◌≤◌, ◌^◌, ◌≡◌, ◌≢◌, ◌⊎◌, Bool, true, false, update, if◌then◌else◌, ◌==◌,
  dec_lt, ite,
}
use concurrentfw.Atomic.{fetch_add}
use concurrentfw.Futex.{Call, lock, trylock, Pc, outside, enter, owner, run, after_wait, after_wake}
use concurrentfw.Futex.Kernel.{Kernel}
use concurrentfw.Futex.System.{
  System, init, Step, call, recover, access, wait_returns, wait_blocks, wait_ends, wake, mover,
}

-- the width of `Passes`
abbrev pub passes_bits : ℕ
passes_bits = 32

-- Where a worker stands in its loop. `passes_locked += 1` is a load and a store.
pub data Stage : Type 0 where
  main : Stage  -- not a worker
  testing : Stage  -- before the load of `stop_thread`
  locking : Stage  -- in `lock` or `trylock`
  loading : Stage  -- owns the mutex, before the load of `passes_locked`
  storing : ℕ → Stage  -- with the value loaded, before the store of its successor
  unlocking : Stage  -- in `unlock`
  adding : Stage  -- before `passes_atomic.fetch_add(1)`
  finished : Stage

pub record Worker : Type 0 where
  pub thread_access : ℕ
  pub stage : Stage

-- What the four tests differ in: the number of workers, the way in, the tuple that a worker takes
-- first, the one after a pass, and if `main` holds the mutexes meanwhile, which are then locked as
-- the constructor `Futex(true)` leaves them.
pub record Plan : Type 0 where
  pub threads_no : ℕ
  pub way_in : Call
  pub first : ℕ → ℕ
  pub following : ℕ → ℕ
  pub held : Bool

-- `test_independent_lock_unlock`
unfoldable pub independent : ℕ → Plan
independent n = record {
  threads_no = n;
  way_in = lock;
  first = λ i. i;
  following = λ t. t;
  held = false;
}

-- `thread_access = (thread_access + 1) % threads_no`
abbrev pub round_robin : ℕ → ℕ → ℕ
round_robin n t = (t + 1) % n

-- `test_dependent_lock_unlock`
unfoldable pub dependent : ℕ → Plan
dependent n = record {
  threads_no = n;
  way_in = lock;
  first = λ _. 0;
  following = round_robin n;
  held = false;
}

-- `test_trylock_fail`
unfoldable pub trylock_fail : ℕ → Plan
trylock_fail n = record {
  threads_no = n;
  way_in = trylock;
  first = λ _. 0;
  following = round_robin n;
  held = true;
}

-- `test_trylock`
unfoldable pub trylocks : ℕ → Plan
trylocks n = record {
  threads_no = n;
  way_in = trylock;
  first = λ _. 0;
  following = round_robin n;
  held = false;
}

-- What follows `unlock`: the bodies with `lock` count the pass, those with `trylock` are done.
unfoldable pub after_unlock : Call → (ℕ → ℕ) → Worker → Worker
after_unlock lock following w = record w { stage = adding }
after_unlock _ following w = record { thread_access = following w.thread_access; stage = testing }

-- The worker is in `lock` or `trylock`, which has not returned true, or in `unlock`.
abbrev pub InMutex : Stage → Pc → Type 0
InMutex stage pc = ((stage ≡ locking) × (pc ≢ owner)) ⊎ (stage ≡ unlocking)

-- Thread 0 is `main`; the workers are the threads 1 to `threads_no`, and worker `i + 1` has the
-- `thread_no` `i`.
abbrev pub first_stage : ℕ → ℕ → Stage
first_stage threads_no zero = main
first_stage threads_no (suc i) = ite (dec_lt i threads_no) testing main

abbrev pub thread_no : ℕ → ℕ
thread_no zero = 0
thread_no (suc i) = i

module _ (k : Kernel) where
  -- `ThreadTuple`
  pub record Tuple : Type 0 where
    pub mutex : System k
    pub passes_locked : ℕ
    pub passes_atomic : ℕ

  pub record Bench : Type 0 where
    pub tuple : ℕ → Tuple
    pub worker : ℕ → Worker
    pub stop_threads : Bool

  -- The loops over `workers` ahead of the threads.
  unfoldable pub prepared : Plan → Bench
  prepared p = record {
    tuple = λ _. record { mutex = init k p.held; passes_locked = 0; passes_atomic = 0 };
    worker =
        λ i. record { thread_access = p.first (thread_no i); stage = first_stage p.threads_no i };
    stop_threads = false;
  }

  -- The move is one within a call: it is neither the start of a call nor the end of an exception.
  abbrev pub within_call : {s t : System k} → Step k s t → Bool
  within_call (call i c e) = false
  within_call (recover i e) = false
  within_call _ = true

  -- the tuple that worker `i` is at
  abbrev pub tuple_of : Bench → ℕ → Tuple
  tuple_of s i = s.tuple (s.worker i).thread_access

  abbrev pub set_worker : Bench → ℕ → Worker → Bench
  set_worker s i w = record s { worker = update s.worker i w }

  abbrev pub set_tuple : Bench → ℕ → Tuple → Bench
  set_tuple s m t = record s { tuple = update s.tuple m t }

  abbrev pub to_stage : Bench → ℕ → Stage → Bench
  to_stage s i stage = set_worker s i (record (s.worker i) { stage = stage })

  -- Thread `i` calls `lock` or `trylock`.
  abbrev pub calling_in : Call → ℕ → Tuple → Tuple
  calling_in c i t = record t { mutex = record (t.mutex) { pc = update t.mutex.pc i (enter c) } }

  abbrev pub passes_stored : ℕ → Tuple → Tuple
  passes_stored v t = record t { passes_locked = (v + 1) % 2 ^ passes_bits }

  abbrev pub pass_added : Tuple → Tuple
  pass_added t = record t { passes_atomic = (fetch_add passes_bits 1 t.passes_atomic).0 }

  module _ (p : Plan) where
    -- One step of worker `i`, or of `main`, which sets `stop_threads`.
    pub data Move (s : Bench) : Bench → Type 0 where
      stops : Move s (record s { stop_threads = true })
      leaves :
          (i : ℕ)
          → (s.worker i).stage ≡ testing
          → s.stop_threads ≡ true
          → Move s (to_stage s i finished)
      calls :
          (i m : ℕ)
          → (s.worker i).thread_access ≡ m
          → (s.worker i).stage ≡ testing
          → s.stop_threads ≡ false
          → Move s (set_tuple (to_stage s i locking) m (calling_in p.way_in i (s.tuple m)))
      moves :
          (i m : ℕ) {t : System k}
          → (s.worker i).thread_access ≡ m
          → InMutex (s.worker i).stage ((s.tuple m).mutex.pc i)
          → (st : Step k (s.tuple m).mutex t) → mover st ≡ i
          → within_call st ≡ true
          → Move s (set_tuple s m (record (s.tuple m) { mutex = t }))
      enters :
          (i : ℕ)
          → (s.worker i).stage ≡ locking
          → (tuple_of s i).mutex.pc i ≡ owner
          → Move s (to_stage s i loading)
      finds_busy :
          (i : ℕ)
          → (s.worker i).stage ≡ locking
          → p.way_in ≡ trylock
          → (tuple_of s i).mutex.pc i ≡ outside
          → Move s (to_stage s i adding)
      loads :
          (i : ℕ)
          → (s.worker i).stage ≡ loading
          → Move s (to_stage s i (storing (tuple_of s i).passes_locked))
      stores :
          (i m v : ℕ)
          → (s.worker i).thread_access ≡ m
          → (s.worker i).stage ≡ storing v
          → Move s (set_tuple (to_stage s i unlocking) m (passes_stored v (s.tuple m)))
      unlocked :
          (i : ℕ)
          → (s.worker i).stage ≡ unlocking
          → (tuple_of s i).mutex.pc i ≡ outside
          → Move s (set_worker s i (after_unlock p.way_in p.following (s.worker i)))
      adds :
          (i m : ℕ)
          → (s.worker i).thread_access ≡ m
          → (s.worker i).stage ≡ adding
          → Move s (
              set_tuple
                (set_worker s i (record { thread_access = p.following m; stage = testing }))
                m
                (pass_added (s.tuple m)))

    pub data Reach : Bench → Type 0 where
      start : Reach (prepared p)
      later : {s t : Bench} → Reach s → Move s t → Reach t
