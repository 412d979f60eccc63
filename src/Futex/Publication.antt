-- ===== src/Futex/Publication.antt =====
-- The memory orders of the class `Futex` (src/concurrentfw/futex.hpp, src/futex.cpp): which writes to
-- the data that the futex protects a thread sees when it has taken the futex.
pub mod Invariant
pub mod Visible
pub mod Stale
mod Examples
use concurrentfw.Prelude.{ℕ, ◌+◌, ◌≡◌, Bool, true, false, [], ◌==◌, ◌||◌, if◌then◌else◌, update}
use concurrentfw.Atomic.Order.{MemoryOrder, relaxed, acquire, release}
use concurrentfw.Atomic.Views.{View, Standard, Thread, fresh, Message, load, store, modify}
use concurrentfw.Futex.{Pc, enter, first_exchange, next_exchange, owner, wake_store, unlocked, run}
use concurrentfw.Futex.Kernel.{Kernel}
use concurrentfw.Futex.System.{access}
use concurrentfw.Futex.System

-- The views of the threads, what the word carries, and the number of writes so far to the data.
pub record Views : Type 0 where
  pub thread : ℕ → Thread
  pub message : Message
  pub writes : ℕ

-- The constructor's store happens before the threads.
unfoldable pub at_start : Views
at_start = record { thread = λ _. fresh; message = []; writes = 0 }

-- The template arguments of the operations in `lock`, `trylock` and `trylock_timeout`, on success
-- and on failure, in `wait` and `wait_timeout`, in `unlock` and in `wake`.
abbrev pub lock_success : MemoryOrder
lock_success = acquire

abbrev pub lock_failure : MemoryOrder
lock_failure = relaxed

abbrev pub wait_exchange : MemoryOrder
wait_exchange = acquire

abbrev pub unlock_sub : MemoryOrder
unlock_sub = release

abbrev pub wake_order : MemoryOrder
wake_order = relaxed

-- Thread `i` reads and writes the word in one step.
abbrev pub modified : ℕ → MemoryOrder → Views → Views
modified i o v =
    let (t, message) = modify i o (v.thread i) v.message in
    record v { thread = update v.thread i t; message = message }

-- What the access at `pc` does to the views; `o` is the order of the store in `wake`.
unfoldable pub observe : Standard → MemoryOrder → ℕ → ℕ → Pc → Views → Views
unfolding modify load store
observe std o i value (enter c) v =
    if value == unlocked
    then modified i lock_success v
    else record v { thread = update v.thread i (load lock_failure v.message (v.thread i)) }
observe std o i value (first_exchange c) v = modified i wait_exchange v
observe std o i value (next_exchange c) v = modified i wait_exchange v
observe std o i value owner v = modified i unlock_sub v
observe std o i value wake_store v = record v { message = store std i o (v.thread i) v.message }
observe std o i value _ v = v

-- The thread that owns the futex writes to the data.
abbrev pub touched : ℕ → Views → Views
touched i v = record v {
  thread =
      update v.thread i
        (record (v.thread i) { current = λ e. (e == v.writes) || (v.thread i).current e });
  writes = v.writes + 1;
}

module _ (std : Standard) (o : MemoryOrder) {k : Kernel} where
  -- A step of the threads and the kernel, with what it does to the views: the system calls do
  -- nothing, as the memory model gives them no order.
  unfoldable pub effect : {s t : System.System k} → System.Step k s t → Views → Views
  unfolding observe
  effect {s} (access i) v = observe std o i s.value (s.pc i) v
  effect _ v = v

  pub data Reach (locked : Bool) : System.System k → Views → Type 0 where
    start : Reach locked (System.init k locked) at_start
    moves :
        {s t : System.System k} {v : Views}
        → Reach locked s v
        → (st : System.Step k s t) → Reach locked t (effect st v)
    touches :
        {s : System.System k} {v : Views}
        → Reach locked s v
        → (i : ℕ) → s.pc i ≡ owner
        → Reach locked s (touched i v)

  -- Without its views, it is a state that the futex reaches.
  pub Reach-Reach :
      {locked : Bool} {s : System.System k} {v : Views} → Reach locked s v → System.Reach k locked s
  Reach-Reach start = System.start
  Reach-Reach (moves r st) = System.later (Reach-Reach r) st
  Reach-Reach (touches r i e) = Reach-Reach r
