-- ===== src/StackTest.antt =====
-- src/tests/test_stack.cpp: `test_stack` and its `worker`, threads that move blocks between several
-- stacks of the class `Stack`, on a platform with DWCAS.
pub mod Views
pub mod Events
pub mod Elsewhere
pub mod Invariant
pub mod Hands
pub mod Conserved
pub mod Sums
pub mod Range
pub mod Drain
pub mod Counted
mod Examples
use concurrentfw.Prelude.{
  ℕ, zero, suc, ◌+◌, ◌%◌, ◌<◌, ◌≡◌, ◌≢◌, Bool, true, false, update, ite, dec_lt,
}
use concurrentfw.AbaWrapper.{Content}
use concurrentfw.AbaWrapper.Dwcas.{construct}
use concurrentfw.Stack.{
  Block, null, Memory, Pc, idle, pop_start, Event, silent, pushed, popped, found_empty, push_entry,
  run,
}
use concurrentfw.Stack.System.{tally}

-- Where a block is.
pub data Place : Type 0 where
  nowhere : Place  -- not allocated by the test
  held : ℕ → Place  -- in the hands of a thread
  on : ℕ → Place  -- on a stack

-- Where a thread stands; the first three are those of the thread that runs `test_stack`.
pub data Stage : Type 0 where
  filling : Stage  -- between its calls of `push`
  putting : Block → Stage  -- in `push`
  filled : Stage
  unborn : Stage
  outer : Stage  -- at the head of the outer loop
  inner : Stage  -- at the head of the inner loop
  popping : Stage  -- in `stacks[thread].pop()`
  holding : Block → Stage  -- `pop` has returned the block
  pushing : Block → Stage  -- in `stacks[push_thread].push(block)`
  finished : Stage

pub record Worker : Type 0 where
  pub stage : Stage
  pub push_thread : ℕ
  pub pc : Pc

pub record Bench : Type 0 where
  pub link : Block → ℕ
  pub stack : ℕ → Content
  pub changes : ℕ → ℕ
  pub place : Block → Place
  pub worker : ℕ → Worker
  pub end_test : Bool

-- Thread 0 runs `test_stack`; worker `i` is thread `i + 1`.
abbrev pub worker_no : ℕ → ℕ
worker_no zero = 0
worker_no (suc i) = i

abbrev pub first_stage : ℕ → ℕ → Stage
first_stage threads zero = filling
first_stage threads (suc i) = ite (dec_lt i threads) unborn finished

-- the stack that the thread calls
abbrev pub called : Stage → ℕ → ℕ → ℕ
called popping own other = own
called _ own other = other

abbrev pub stack_of : ℕ → Worker → ℕ
stack_of i w = called w.stage (worker_no i) w.push_thread

abbrev pub memory_of : Bench → ℕ → Memory
memory_of s m = record { link = s.link; stack = s.stack m }

abbrev pub first_place : Bool → Place
first_place true = held 0
first_place false = nowhere

-- New stacks, and the blocks that `malloc` gives to thread 0.
unfoldable pub prepared : ℕ → (Block → ℕ) → (Block → Bool) → Bench
unfolding construct
prepared threads link allocated = record {
  link = link;
  stack = λ _. construct null;
  changes = λ _. 0;
  place = λ b. first_place (allocated b);
  worker = λ i. record { stage = first_stage threads i; push_thread = 0; pc = idle };
  end_test = false;
}

abbrev pub settle_place : ℕ → ℕ → Event → (Block → Place) → Block → Place
settle_place i m silent place = place
settle_place i m (pushed b) place = update place b (on m)
settle_place i m (popped b) place = update place b (held i)
settle_place i m found_empty place = place

-- The end of `push`, of thread 0 and of a worker.
unfoldable pub after_push : ℕ → Stage → ℕ → Pc → Worker
after_push threads (putting b) m pc = record { stage = filling; push_thread = m; pc = pc }
after_push threads _ m pc = record { stage = inner; push_thread = (m + 1) % threads; pc = pc }

-- The end of `pop` and of `push`.
unfoldable pub after : ℕ → Event → Worker → Worker
unfolding after_push
after threads silent w = w
after threads (popped b) w = record w { stage = holding b }
after threads found_empty w = record w { stage = outer }
after threads (pushed b) w = after_push threads w.stage w.push_thread w.pc

abbrev pub to_stage : Bench → ℕ → Stage → Bench
to_stage s i stage = record s { worker = update s.worker i (record (s.worker i) { stage = stage }) }

module _ (w threads : ℕ) where
  -- Thread `i` has made an access to stack `m`, with what `run` says of it.
  abbrev pub accessed : Bench → ℕ → ℕ → Memory × Pc × Event → Bench
  accessed s i m (memory, p, e) = record s {
    link = memory.link;
    stack = update s.stack m memory.stack;
    changes = update s.changes m (tally e (s.changes m));
    place = settle_place i m e s.place;
    worker = update s.worker i (after threads e (record (s.worker i) { pc = p }));
  }

  pub data Move (s : Bench) : Bench → Type 0 where
    fills :
        (b : Block) (m : ℕ)
        → m < threads
        → (s.worker 0).stage ≡ filling
        → s.place b ≡ held 0
        → Move s (record s {
          worker =
              update s.worker 0 (record { stage = putting b; push_thread = m; pc = push_entry b });
        })
    has_filled :
        (s.worker 0).stage ≡ filling
        → ((b : Block) → s.place b ≢ held 0)
        → Move s (to_stage s 0 filled)
    spawns :
        (i : ℕ)
        → (s.worker 0).stage ≡ filled
        → (s.worker i).stage ≡ unborn
        → Move s (to_stage s i outer)
    ends : (s.worker 0).stage ≡ filled → Move s (record s { end_test = true })
    leaves :
        (i : ℕ) → (s.worker i).stage ≡ outer → s.end_test ≡ true → Move s (to_stage s i finished)
    goes_in :
        (i : ℕ) → (s.worker i).stage ≡ outer → s.end_test ≡ false → Move s (to_stage s i inner)
    goes_out :
        (i : ℕ) → (s.worker i).stage ≡ inner → s.end_test ≡ true → Move s (to_stage s i outer)
    pops :
        (i : ℕ)
        → (s.worker i).stage ≡ inner
        → s.end_test ≡ false
        → Move s (record s {
          worker = update s.worker i (record (s.worker i) { stage = popping; pc = pop_start });
        })
    pushes :
        (i : ℕ) (b : Block)
        → (s.worker i).stage ≡ holding b
        → Move s (record s {
          worker = update s.worker i (record (s.worker i) { stage = pushing b; pc = push_entry b });
        })
    accesses :
        (i m : ℕ)
        → stack_of i (s.worker i) ≡ m
        → Move s (accessed s i m (run w (memory_of s m) (s.worker i).pc))

  pub data Reach (link : Block → ℕ) (allocated : Block → Bool) : Bench → Type 0 where
    start : Reach link allocated (prepared threads link allocated)
    later : {s t : Bench} → Reach link allocated s → Move s t → Reach link allocated t
