-- ===== src/Stack.antt =====
-- src/concurrentfw/stack.hpp and src/stack.cpp: the class `Stack` of unspecified blocks, each
-- linked through its first word, on a platform with DWCAS.
--
-- `push` and `pop` are cut at their shared accesses: the load, the compare-and-swap and the access
-- to the first word of a block. `Pc` names the access that a thread makes next, with the locals
-- that are live there, and `run` makes it.
pub mod Chain
pub mod System
pub mod Swaps
pub mod Invariant
pub mod Refinement
pub mod Ownership
pub mod Race
pub mod Progress
pub mod Publication
pub mod Timely
pub mod Calls
pub mod Llsc
mod Examples
use concurrentfw.Prelude.{ℕ, Bool, true, false, ◌==◌, if◌then◌else◌, update}
use concurrentfw.AbaWrapper.{Content}
use concurrentfw.AbaWrapper.Dwcas.{dw_cas, next}

-- `UnspecifiedBlock`: an address
abbrev pub Block : Type 0
Block = ℕ

abbrev pub null : Block
null = 0

-- The first word of each block, and the content of the wrapper `stack`.
pub record Memory : Type 0 where
  pub link : Block → ℕ
  pub stack : Content

pub data Pc : Type 0 where
  idle : Pc  -- not in a call
  push_start : Block → Pc  -- before the load in `modify`
  push_cached : Block → Content → Pc  -- before the lambda's write to the block
  push_linked : Block → Content → Pc  -- before the compare-and-swap
  pop_start : Pc  -- before the load in `modify`
  pop_cached : Content → Pc  -- before the lambda's read of the block on top
  pop_read : Content → Block → Pc  -- before the compare-and-swap
  rejected : Pc  -- `push` has thrown `std::invalid_argument`

-- What an access means for the caller: a `push` or a `pop` that takes effect, with its block, or a
-- `pop` that finds the stack empty.
pub data Event : Type 0 where
  silent : Event
  pushed : Block → Event
  popped : Block → Event
  found_empty : Event

-- the test at the head of `push`
unfoldable pub push_entry : Block → Pc
push_entry block = if block == null then rejected else push_start block

-- The lambda of `pop` up to its read: an empty stack ends the call.
unfoldable pub pop_loaded : Content → Pc × Event
pop_loaded cache = if cache.value == null then (idle, found_empty) else (pop_cached cache, silent)

-- The ends of the loops of `modify` in `push` and in `pop`.
unfoldable pub push_swapped : Block → Bool × Content → Pc × Event
push_swapped block (true, cache) = (idle, pushed block)
push_swapped block (false, cache) = (push_cached block cache, silent)

unfoldable pub pop_swapped : Bool × Content → Pc × Event
unfolding pop_loaded
pop_swapped (true, cache) = (idle, popped cache.value)
pop_swapped (false, cache) = pop_loaded cache

-- One access, and the code up to the next one.
unfoldable pub run : ℕ → Memory → Pc → Memory × Pc × Event
unfolding dw_cas next pop_loaded push_swapped pop_swapped
run w m idle = (m, idle, silent)
run w m rejected = (m, rejected, silent)
run w m (push_start block) = (m, push_cached block m.stack, silent)
run w m (push_cached block cache) =
    (record m { link = update m.link block cache.value }, push_linked block cache, silent)
run w m (push_linked block cache) =
    let (stack', stored, cache') = dw_cas m.stack cache (next w cache block) in
    let (pc', event) = push_swapped block (stored, cache') in
    (record m { stack = stack' }, pc', event)
run w m pop_start = let (pc', event) = pop_loaded m.stack in (m, pc', event)
run w m (pop_cached cache) = (m, pop_read cache (m.link cache.value), silent)
run w m (pop_read cache below) =
    let (stack', stored, cache') = dw_cas m.stack cache (next w cache below) in
    let (pc', event) = pop_swapped (stored, cache') in (record m { stack = stack' }, pc', event)
