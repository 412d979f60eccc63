-- ===== src/TimeoutTest.antt =====
-- src/tests/test_futex.cpp, "check multiple timeout Futex locks": threads that count in a shared
-- number how many of them are behind one `Futex`. All accesses are in one order for all threads.
pub mod Invariant
pub mod Detector
mod Examples
use concurrentfw.Prelude.{ℕ, ◌≡◌, ◌≢◌, ◌⊎◌, Bool, true, false, update}
use concurrentfw.Atomic.{add_fetch, sub_fetch, or_fetch}
use concurrentfw.Futex.{trylock_timeout, Pc, outside, enter, owner}
use concurrentfw.Futex.Kernel.{Kernel}
use concurrentfw.Futex.System.{System, init, Step, call, recover, mover}
use concurrentfw.MutexTest.{within_call}

-- the width of `uint32_t`
abbrev pub count_bits : ℕ
count_bits = 32

-- Where a worker stands in its loop.
pub data Stage : Type 0 where
  testing : Stage  -- before the load of `stop`
  locking : Stage  -- in `trylock_timeout`
  adding : Stage  -- before `inside.add_fetch(1)`
  detecting : ℕ → Stage  -- before `detector.or_fetch(fetched)`
  reporting : Stage  -- before `test_locked.store(true)`
  leaving : Stage  -- before `inside.sub_fetch(1)`
  unlocking : Stage  -- in `unlock`
  refused : Stage  -- before `test_timeout.store(true)`
  finished : Stage

module _ (k : Kernel) where
  pub record Test : Type 0 where
    pub futex : System k
    pub stop : Bool
    pub test_locked : Bool
    pub test_timeout : Bool
    pub inside : ℕ
    pub detector : ℕ
    pub worker : ℕ → Stage

  unfoldable pub prepared : Test
  prepared = record {
    futex = init k false;
    stop = false;
    test_locked = false;
    test_timeout = false;
    inside = 0;
    detector = 0;
    worker = λ _. testing;
  }

  abbrev pub goes_to : Test → ℕ → Stage → Test
  goes_to s i stage = record s { worker = update s.worker i stage }

  -- One step of worker `i`, or of the thread that sets `stop`.
  pub data Move (s : Test) : Test → Type 0 where
    stops : Move s (record s { stop = true })
    ends : (i : ℕ) → s.worker i ≡ testing → s.stop ≡ true → Move s (goes_to s i finished)
    calls :
        (i : ℕ)
        → s.worker i ≡ testing
        → s.stop ≡ false
        → Move s (record s {
          futex = record s.futex { pc = update s.futex.pc i (enter trylock_timeout) };
          worker = update s.worker i locking;
        })
    moves :
        (i : ℕ) {t : System k}
        → ((s.worker i ≡ locking) × (s.futex.pc i ≢ owner)) ⊎ (s.worker i ≡ unlocking)
        → (st : Step k s.futex t) → mover st ≡ i
        → within_call k st ≡ true
        → Move s (record s { futex = t })
    enters : (i : ℕ) → s.worker i ≡ locking → s.futex.pc i ≡ owner → Move s (goes_to s i adding)
    gives_up :
        (i : ℕ) → s.worker i ≡ locking → s.futex.pc i ≡ outside → Move s (goes_to s i refused)
    reports_timeout :
        (i : ℕ)
        → s.worker i ≡ refused
        → Move s (record s { test_timeout = true; worker = update s.worker i testing })
    adds :
        (i : ℕ)
        → s.worker i ≡ adding
        → Move s (record s {
          inside = (add_fetch count_bits 1 s.inside).0;
          worker = update s.worker i (detecting (add_fetch count_bits 1 s.inside).1);
        })
    detects :
        (i fetched : ℕ)
        → s.worker i ≡ detecting fetched
        → Move s (record s {
          detector = (or_fetch fetched s.detector).0;
          worker = update s.worker i reporting;
        })
    reports_locked :
        (i : ℕ)
        → s.worker i ≡ reporting
        → Move s (record s { test_locked = true; worker = update s.worker i leaving })
    subtracts :
        (i : ℕ)
        → s.worker i ≡ leaving
        → Move s (record s {
          inside = (sub_fetch count_bits 1 s.inside).0;
          worker = update s.worker i unlocking;
        })
    unlocked :
        (i : ℕ) → s.worker i ≡ unlocking → s.futex.pc i ≡ outside → Move s (goes_to s i testing)

  pub data Reach : Test → Type 0 where
    start : Reach prepared
    later : {s t : Test} → Reach s → Move s t → Reach t
