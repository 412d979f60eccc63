-- ===== src/Futex.antt =====
-- src/concurrentfw/futex.hpp and src/futex.cpp: the class `Futex`, a mutex in one `int`.
--
-- The code of `lock`, `trylock`, `trylock_timeout`, `unlock`, `wait`, `wait_timeout` and `wake` is
-- cut at its shared accesses: `Pc` names the access that a thread makes next, `run` makes one on
-- the word `value`, and the functions from an answer to a `Pc` are the code up to the next access.
pub mod Kernel
pub mod System
pub mod Op
pub mod Request
pub mod Calls
pub mod Progress
pub mod Timeout
pub mod Exclusion
pub mod Wakeups
pub mod Refinement
pub mod Publication
mod Examples
use concurrentfw.Prelude.{ℕ, Bool, true, false, not, ◌==◌, if◌then◌else◌}
use concurrentfw.Atomic.{store, exchange, compare_exchange_strong, fetch_sub}

-- `enum State`
abbrev pub unlocked : ℕ
unlocked = 0

abbrev pub locked_nowaiters : ℕ
locked_nowaiters = 1

abbrev pub locked_waiters : ℕ
locked_waiters = 2

-- the width of `int`
abbrev pub int_bits : ℕ
int_bits = 32

-- the value that the constructor `Futex(bool locked)` stores; `Futex()` is the case `false`
unfoldable pub initial : Bool → ℕ
initial locked = if locked then locked_nowaiters else unlocked

-- The errors that the code tells apart; `other` is any further `errno`.
pub data Errno : Type 0 where
  eagain eintr etimedout : Errno
  other : ℕ → Errno

-- What `futex_wait` returns: 0, or -1 with an `errno`.
pub data WaitAnswer : Type 0 where
  woken : WaitAnswer
  failed : Errno → WaitAnswer

-- What `futex_wake` returns: the number of threads that it woke, or -1 with an `errno`.
pub data WakeAnswer : Type 0 where
  woke : ℕ → WakeAnswer
  refused : Errno → WakeAnswer

-- The three ways in.
pub data Call : Type 0 where
  lock trylock trylock_timeout : Call

pub data Pc : Type 0 where
  outside : Pc  -- not in a call, and without the futex
  enter : Call → Pc  -- before the compare-exchange
  first_exchange : Call → Pc  -- before the exchange ahead of the loop
  about_to_wait : Call → Pc  -- in the loop, before `futex_wait`
  waiting : Call → Pc  -- in `futex_wait`
  next_exchange : Call → Pc  -- at the end of the loop's body
  owner : Pc  -- the call has returned, and the caller owns the futex
  wake_store : Pc  -- `unlock` has found waiters, before the store of `wake`
  wake_call : Pc  -- before `futex_wake`
  thrown : Pc  -- a `std::system_error` has left the call

-- The head of the loop in `wait` and `wait_timeout`.
unfoldable pub loop : Call → ℕ → Pc
loop c cached_state = if cached_state == unlocked then owner else about_to_wait c

-- `wait` and `wait_timeout` up to their first shared access.
unfoldable pub wait : Call → ℕ → Pc
unfolding loop
wait c cached_state =
    if not (cached_state == locked_waiters) then first_exchange c else loop c cached_state

-- `lock`, `trylock` and `trylock_timeout` after their compare-exchange.
unfoldable pub after_compare : Call → Bool × ℕ → Pc
unfolding wait
after_compare c (true, _) = owner
after_compare lock (false, found) = wait lock found
after_compare trylock (false, found) = outside
after_compare trylock_timeout (false, found) = wait trylock_timeout found

-- The tests on the result of `futex_wait`. Only a call with a timeout looks for `ETIMEDOUT`.
unfoldable pub after_wait : Call → WaitAnswer → Pc
after_wait c woken = next_exchange c
after_wait c (failed eagain) = next_exchange c
after_wait c (failed eintr) = next_exchange c
after_wait trylock_timeout (failed etimedout) = outside
after_wait lock (failed etimedout) = thrown
after_wait trylock (failed etimedout) = thrown
after_wait c (failed (other e)) = thrown

-- `unlock` after its `fetch_sub`.
unfoldable pub after_sub : ℕ → Pc
after_sub before = if before == locked_waiters then wake_store else outside

-- The end of `wake`.
unfoldable pub after_wake : WakeAnswer → Pc
after_wake (woke n) = outside
after_wake (refused e) = thrown

-- One access to `value` and the code up to the next one. `owner` runs `unlock`. A thread elsewhere
-- is outside or in a system call, and touches nothing.
unfoldable pub run : ℕ → Pc → ℕ × Pc
unfolding store exchange compare_exchange_strong fetch_sub after_compare loop after_sub
run value (enter c) =
    let (value', found) = compare_exchange_strong unlocked locked_nowaiters value in
    (value', after_compare c found)
run value (first_exchange c) =
    let (value', old) = exchange locked_waiters value in (value', loop c old)
run value (next_exchange c) =
    let (value', old) = exchange locked_waiters value in (value', loop c old)
run value owner = let (value', before) = fetch_sub int_bits 1 value in (value', after_sub before)
run value wake_store = (store unlocked value, wake_call)
run value pc = (value, pc)

-- The thread owns the futex: from the access that takes it to the one that sets it free.
abbrev pub holds : Pc → Bool
holds owner = true
holds wake_store = true
holds _ = false
