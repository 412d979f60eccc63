-- ===== src/Futex/Kernel.antt =====
-- The system call `futex` of Linux, which src/concurrentfw/futex.hpp calls and does not implement:
-- the operations FUTEX_WAIT_PRIVATE and FUTEX_WAKE_PRIVATE on one word, with what futex(2)
-- documents of them.
pub mod Waiters
use concurrentfw.Prelude.{ℕ, ◌≤◌, ◌≡◌, ◌≢◌, Bool, true, false}
use concurrentfw.Futex.{WaitAnswer, woken, WakeAnswer, refused, Errno}

pub record Kernel : Type 1 where
  -- the kernel's list of the threads that are blocked on the word
  pub Queue : Type 0
  pub blocked : Queue → ℕ → Bool
  pub empty : Queue
  -- The wait of thread `i` with the word at `value` returns at once with an answer, or blocks.
  pub Returns : Queue → (i value expected : ℕ) → WaitAnswer → Type 0
  pub Blocks : Queue → (i value expected : ℕ) → Queue → Type 0
  -- A wait that blocked comes to its end with an answer.
  pub Ends : Queue → (i : ℕ) → WaitAnswer → Queue → Type 0
  -- A wake of at most `n` threads.
  pub Wakes : Queue → (n : ℕ) → WakeAnswer → Queue → Type 0
  pub blocked-empty : (j : ℕ) → blocked empty j ≡ false
  -- A wait blocks only if it finds the expected value, in one step with its comparison.
  pub block_value :
      {q q' : Queue} {i value expected : ℕ} → Blocks q i value expected q' → value ≡ expected
  pub block_others :
      {q q' : Queue} {i value expected : ℕ}
      → Blocks q i value expected q'
      → (j : ℕ) → i ≢ j
      → blocked q' j ≡ blocked q j
  pub end_self : {q q' : Queue} {i : ℕ} {a : WaitAnswer} → Ends q i a q' → blocked q' i ≡ false
  pub end_others :
      {q q' : Queue} {i : ℕ} {a : WaitAnswer}
      → Ends q i a q'
      → (j : ℕ) → i ≢ j
      → blocked q' j ≡ blocked q j
  -- A wait that was woken returns 0.
  pub end_woken :
      {q q' : Queue} {i : ℕ} {a : WaitAnswer} → Ends q i a q' → blocked q i ≡ false → a ≡ woken
  -- A wake blocks nobody, is not refused, and wakes one thread at least where one is blocked.
  pub wake_only :
      {q q' : Queue} {n : ℕ} {a : WakeAnswer}
      → Wakes q n a q'
      → (j : ℕ) → blocked q j ≡ false
      → blocked q' j ≡ false
  pub wake_accepted : {q q' : Queue} {n : ℕ} {e : Errno} → ¬ Wakes q n (refused e) q'
  pub wake_some :
      {q q' : Queue} {n : ℕ} {a : WakeAnswer}
      → Wakes q n a q'
      → 1 ≤ n
      → (j : ℕ) → blocked q j ≡ true
      → (k : ℕ) × (blocked q k ≡ true) × (blocked q' k ≡ false)
