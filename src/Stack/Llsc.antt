-- ===== src/Stack/Llsc.antt =====
-- src/concurrentfw/stack.hpp and src/stack.cpp: the class `Stack` on a platform with load-linked and
-- store-conditional, cut at its shared accesses as in the file on DWCAS.
--
-- Each processor has a monitor on the word `stack`. A store to the word by one of them clears the
-- monitors of all; the processor clears its own for reasons of its own too.
pub mod System
pub mod Invariant
pub mod Accesses
pub mod Linearizable
pub mod Progress
pub mod Publication
pub mod Calls
mod Examples
use concurrentfw.Prelude.{ℕ, Bool, true, false, ◌==◌, if◌then◌else◌, update}
use concurrentfw.Arm.{
  Monitor, atomic_exclusive_load_aquire, atomic_exclusive_store_release, atomic_exclusive_abort,
}
use concurrentfw.Stack.{Block, null, Event, silent, pushed, popped, found_empty}

pub record Memory : Type 0 where
  pub link : Block → ℕ
  pub stack : ℕ
  pub reserved : ℕ → Bool

-- The word with the monitor of the processor that runs thread `i`.
abbrev pub view : ℕ → Memory → Monitor ℕ
view i m = record { memory = m.stack; reserved = m.reserved i }

-- The memory after an access that has not stored, and after one that has.
abbrev pub keep : ℕ → Monitor ℕ → Memory → Memory
keep i v m = record m { reserved = update m.reserved i v.reserved }

abbrev pub publish : Monitor ℕ → Memory → Memory
publish v m = record m { stack = v.memory; reserved = λ _. false }

pub data Pc : Type 0 where
  idle : Pc  -- not in a call
  push_start : Block → Pc  -- before the exclusive load
  push_cached : Block → ℕ → Pc  -- before the lambda's write to the block
  push_linked : Block → ℕ → Pc  -- before the exclusive store
  pop_start : Pc  -- before the exclusive load
  pop_cached : ℕ → Pc  -- before the lambda's read of the block on top
  pop_read : ℕ → Block → Pc  -- before the exclusive store
  rejected : Pc  -- `push` has thrown `std::invalid_argument`

unfoldable pub push_entry : Block → Pc
push_entry block = if block == null then rejected else push_start block

-- `pop` after its exclusive load: on an empty stack the lambda declines, and `modify` aborts.
unfoldable pub pop_loaded : ℕ → Monitor ℕ → ℕ → Memory → Memory × Pc × Event
unfolding atomic_exclusive_abort
pop_loaded i v cache m =
    if cache == null
    then (keep i (atomic_exclusive_abort v) m, idle, found_empty)
    else (keep i v m, pop_cached cache, silent)

-- One access of thread `i`, and the code up to the next one. A store that failed starts the loop of
-- `modify` again.
unfoldable pub run : ℕ → Memory → Pc → Memory × Pc × Event
unfolding atomic_exclusive_load_aquire atomic_exclusive_store_release pop_loaded
run i m idle = (m, idle, silent)
run i m rejected = (m, rejected, silent)
run i m (push_start block) =
    let (v, cache) = atomic_exclusive_load_aquire (view i m) in
    (keep i v m, push_cached block cache, silent)
run i m (push_cached block cache) =
    (record m { link = update m.link block cache }, push_linked block cache, silent)
run i m (push_linked block cache) =
    let (v, stored) = atomic_exclusive_store_release block (view i m) in
    if stored then (publish v m, idle, pushed block) else (keep i v m, push_start block, silent)
run i m pop_start =
    let (v, cache) = atomic_exclusive_load_aquire (view i m) in pop_loaded i v cache m
run i m (pop_cached cache) = (m, pop_read cache (m.link cache), silent)
run i m (pop_read cache below) =
    let (v, stored) = atomic_exclusive_store_release below (view i m) in
    if stored then (publish v m, idle, popped cache) else (keep i v m, pop_start, silent)
