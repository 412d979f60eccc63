-- ===== src/Lib.antt =====
-- Verification of ConcurrentFW, a concurrency framework for Linux in C++.
--
-- The library offers a lock-free stack of memory blocks and a pointer that is set atomically,
-- both over a wrapper that protects a word against the ABA problem; a mutex over the system call
-- `futex`; and the atomic operations that these are made of. The parts, and the files that model
-- them:
--
-- - src/stack.cpp and src/concurrentfw/stack.hpp, class `Stack`: Stack (`push` and `pop`, cut at
--   their shared accesses; `run` makes one access), Stack/System (any number of threads,
--   interleaved in any order, and who owns which block), Stack/Chain and Stack/Invariant (the
--   links in memory, and what keeps them), Stack/Refinement, Stack/Ownership, Stack/Progress and
--   Stack/Race (what follows), Stack/Calls (whole calls, beside the wrapper's `modify` with the
--   lambdas of the source), Stack/Timely (runs in which the counter wraps round),
--   Stack/Publication (the memory orders, and what a `pop` sees). That is the class over DWCAS;
--   Stack/Llsc and the files below it are the same for LLSC, where a step of its own clears a
--   processor's monitor at any time.
-- - src/concurrentfw/aba_wrapper.hpp, union `ABA_Wrapper<T>`: AbaWrapper (the content),
--   AbaWrapper/Dwcas and AbaWrapper/Lockfree (the branches for double-word compare-and-swap),
--   AbaWrapper/Llsc (those for load-linked and store-conditional), AbaWrapper/Publication (its
--   memory orders), AbaWrapper/Layout (the sizes that are admitted, with the platform constants
--   of src/concurrentfw/helper.hpp and src/concurrentfw/atomic_asm_dwcas_llsc.hpp).
-- - src/concurrentfw/atomic_asm_x86.hpp: X86, with its laws in X86/Wide (words of 64 bits) and
--   X86/Narrow (words of 32 bits), and its memory orders in X86/Orders.
--   src/concurrentfw/atomic_asm_arm.hpp: Arm, Arm/Pairs and, for the memory orders, Arm/Orders.
-- - src/concurrentfw/concurrent_ptr.hpp, class `Concurrent_Ptr<T>`: ConcurrentPtr,
--   ConcurrentPtr/Laws, ConcurrentPtr/Shared and ConcurrentPtr/Linked (any number of threads, on
--   DWCAS and on LLSC).
-- - src/futex.cpp and src/concurrentfw/futex.hpp, class `Futex`: Futex (`lock`, `trylock`,
--   `trylock_timeout` and `unlock`, cut at their shared accesses), Futex/Kernel (the system call,
--   as a record of what futex(2) documents), Futex/System (any number of threads),
--   Futex/Exclusion, Futex/Refinement, Futex/Wakeups, Futex/Calls and Futex/Progress (what
--   follows), Futex/Publication (the memory orders of its operations, and what the owner sees of
--   the data, with Futex/Publication/Visible and Futex/Publication/Stale below it), Futex/Timeout
--   (`wait_timeout` with the timeout that it hands to each `futex_wait`, and the time that it
--   takes), Futex/Kernel/Waiters (a kernel for the runs in the examples), Futex/Op and
--   Futex/Request (the arguments that the operations of `FutexBase` hand to the system call).
-- - src/concurrentfw/atomic.hpp, struct `Atomic<T>`: Atomic, Atomic/Laws and Atomic/Order; its
--   memory orders and `atomic_thread_fence`: Atomic/Views; `compiler_barrier` of
--   src/concurrentfw/helper.hpp and the fences between them: Atomic/Barrier (loads, stores,
--   accesses that read and write a word, and fences, in the order that a compiler chooses), with
--   Divided and Order below it.
-- - src/tests/test_futex.cpp, class `TestMutexBenchmark`, a client of `Futex`: MutexTest (`Plan`
--   says which of the four tests it is, `Move` is a step of a worker), MutexTest/Moves and
--   MutexTest/Invariant (how the workers keep to the rules of the mutex), MutexTest/Agree and
--   MutexTest/Held (what follows for the counters). The test of several threads with timeouts in
--   the same file: TimeoutTest (`Move`), TimeoutTest/Invariant and TimeoutTest/Detector.
-- - src/tests/test_stack.cpp, functions `test_stack` and `worker`, clients of `Stack`: StackTest
--   (`Move` is a step of a thread, over several stacks), StackTest/Views (what one stack is to
--   all threads, with what is elsewhere in the hands of an owner of its own), StackTest/Events
--   and StackTest/Elsewhere (an access, as its own stack and the others see it), StackTest/Hands,
--   StackTest/Invariant and StackTest/Conserved (which thread has which block, and what follows),
--   StackTest/Range, StackTest/Drain, StackTest/Sums and StackTest/Counted (the loops at the end
--   and what they count).
-- - src/sysconf.cpp and src/concurrentfw/sysconf.hpp: Sysconf, Sysconf/Replies and Sysconf/Cache.
--   The function of unistd.h is a parameter, the record `Platform`.
--
-- `Stack` and `ConcurrentPtr` call the wrapper's compare-and-swap and `modify`; the wrapper's
-- double-word compare-and-swap stands for the one of X86; its LLSC branches call Arm; the steps
-- of Futex call Atomic. Files named Examples apply the theorems to concrete runs, and Prelude
-- holds what the parts share.
--
-- Words are natural numbers below 2 ^ w, and sums wrap round. A pointer is its address, and null
-- is 0. A loop that other threads can hold up takes a list of what they do ahead of each round,
-- and runs on fuel for one round more than there are such interferences; the theorems on it say
-- that this is enough, so that it ends once the others leave it alone. The counter is there for
-- this: a thread that sleeps through a whole turn of it between its look at the stack and its
-- compare-and-swap is not protected, as the run `awake` of Stack/Examples shows. The files below
-- Stack/Timely take runs of any length in which no thread does, and reduce them to runs whose
-- counter has not wrapped round, which Stack/Refinement and Stack/Ownership are about. Over LLSC
-- there is no counter and no bound.
--
-- Memory orders are modelled beside the values: the accesses to the word of the futex or of a
-- wrapper are indivisible and in one order for all threads, and a view says which writes to other
-- memory happen before what a thread does next. `Views` of Futex/Publication, and that of
-- AbaWrapper/Publication for the stack and the pointer, hold the views along a run.
--
-- Not modelled: accesses to several atomic objects in different orders for different threads; the
-- code of the kernel; the return of a block's memory to the system while a `pop` still reads its
-- first word (Stack/Race has the state in which it would happen); what the system call does for
-- `futex_cmp_requeue`, `futex_wake_op` and the operations with bitsets, which nothing calls; the
-- version constants; the tests other than those of `TestMutexBenchmark`, of several threads with
-- timeouts, and of `test_stack`, and of these the mutex of glibc, the measured times and the
-- statistic of operations; the build.
mod Prelude
pub mod Atomic
pub mod Futex
pub mod MutexTest
pub mod TimeoutTest
pub mod AbaWrapper
pub mod Stack
pub mod StackTest
pub mod X86
pub mod Arm
pub mod ConcurrentPtr
pub mod Sysconf
