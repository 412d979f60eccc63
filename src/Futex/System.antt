-- ===== src/Futex/System.antt =====
-- Any number of threads over one `Futex`, interleaved in any order (src/concurrentfw/futex.hpp).
use concurrentfw.Prelude.{arith, ◌≢◌, ℕ, ◌≡◌, Bool, update, if◌then◌else◌, ◌&&◌, ◌==◌}
use concurrentfw.Futex.{
  WaitAnswer, WakeAnswer, Call, Pc, outside, enter, about_to_wait, waiting, owner, wake_call,
  thrown, locked_waiters, initial, after_wait, after_wake, run,
}
use concurrentfw.Futex.Kernel.{Kernel}

module _ (k : Kernel) where
  open k use {Queue, empty, Returns, Blocks, Ends, Wakes}

  pub record System : Type 0 where
    pub value : ℕ
    pub queue : Queue
    pub pc : ℕ → Pc

  -- `Futex(locked)`, constructed by thread 0, which owns it if it is locked.
  unfoldable pub init : Bool → System
  unfolding initial
  init locked = record {
    value = initial locked;
    queue = empty;
    pc = λ i. if locked && (i == 0) then owner else outside;
  }

  -- One step of thread `i`: it calls, leaves an exception behind, makes an access of its own, or
  -- takes part in a system call. Only the owner calls `unlock`.
  pub data Step (s : System) : System → Type 0 where
    call :
        (i : ℕ) (c : Call) → s.pc i ≡ outside → Step s (record s { pc = update s.pc i (enter c) })
    recover : (i : ℕ) → s.pc i ≡ thrown → Step s (record s { pc = update s.pc i outside })
    access :
        (i : ℕ)
        → Step s (record s {
          value = (run s.value (s.pc i)).0;
          pc = update s.pc i (run s.value (s.pc i)).1;
        })
    wait_returns :
        (i : ℕ) (c : Call) {a : WaitAnswer}
        → s.pc i ≡ about_to_wait c
        → Returns s.queue i s.value locked_waiters a
        → Step s (record s { pc = update s.pc i (after_wait c a) })
    wait_blocks :
        (i : ℕ) (c : Call) {q : Queue}
        → s.pc i ≡ about_to_wait c
        → Blocks s.queue i s.value locked_waiters q
        → Step s (record s { queue = q; pc = update s.pc i (waiting c) })
    wait_ends :
        (i : ℕ) (c : Call) {a : WaitAnswer} {q : Queue}
        → s.pc i ≡ waiting c
        → Ends s.queue i a q
        → Step s (record s { queue = q; pc = update s.pc i (after_wait c a) })
    wake :
        (i : ℕ) {a : WakeAnswer} {q : Queue}
        → s.pc i ≡ wake_call
        → Wakes s.queue 1 a q
        → Step s (record s { queue = q; pc = update s.pc i (after_wake a) })

  pub data Reach (locked : Bool) : System → Type 0 where
    start : Reach locked (init locked)
    later : {s t : System} → Reach locked s → Step s t → Reach locked t

module _ {k : Kernel} where
  -- the thread that moves
  abbrev pub mover : {s t : System k} → Step k s t → ℕ
  mover (call i c e) = i
  mover (recover i e) = i
  mover (access i) = i
  mover (wait_returns i c e r) = i
  mover (wait_blocks i c e b) = i
  mover (wait_ends i c e n) = i
  mover (wake i e w) = i

  -- The others stay where they are.
  pub others_stay : {s t : System k} (st : Step k s t) (j : ℕ) → mover st ≢ j → t.pc j ≡ s.pc j
  others_stay (call i c e) j ne = ground arith
  others_stay (recover i e) j ne = ground arith
  others_stay (access i) j ne = ground arith
  others_stay (wait_returns i c e r) j ne = ground arith
  others_stay (wait_blocks i c e b) j ne = ground arith
  others_stay (wait_ends i c e n) j ne = ground arith
  others_stay (wake i e w) j ne = ground arith
