-- ===== src/Atomic/Barrier.antt =====
-- src/concurrentfw/helper.hpp and src/concurrentfw/atomic.hpp: what the compiler may make of the
-- order of a program's accesses, and the `compiler_barrier` on both sides of every operation and fence.
--
-- A program is the list of its accesses in program order. The compiler exchanges neighbours that do
-- not depend on each other, as often as it likes; nothing passes an `asm volatile` with the clobber
-- "memory". An atomic access that reads and writes a word is one instruction. No order is asked of the built-in fences and atomic operations themselves. The
-- handler of a signal that interrupts the thread finds the memory as the accesses so far left it.
pub mod Divided
pub mod Order
mod Examples
use concurrentfw.Prelude.{
  ℕ, zero, suc, Bool, true, false, not, ◌||◌, List, [], ◌∷◌, ◌++◌, ◌==◌, update, if◌then◌else◌,
}
use concurrentfw.Atomic.{exchange, compare_exchange_strong, fetch_add, test_and_set}
use concurrentfw.Atomic.Order.{MemoryOrder}

pub data Instruction : Type 0 where
  load_from : ℕ → Instruction
  store_to : ℕ → ℕ → Instruction  -- the address and the value
  modify_at : ℕ → (ℕ → ℕ) → Instruction  -- the address, and the new word for each old one
  barrier : Instruction  -- `asm volatile("" ::: "memory")`
  thread_fence : MemoryOrder → Instruction  -- `__atomic_thread_fence`
  signal_fence : MemoryOrder → Instruction  -- `__atomic_signal_fence`

unfoldable pub compiler_barrier : List Instruction
compiler_barrier = barrier ∷ []

-- the form of every operation of `Atomic<T>` and of the fences
unfoldable pub between_barriers : Instruction → List Instruction
unfolding compiler_barrier
between_barriers builtin = compiler_barrier ++ (builtin ∷ compiler_barrier)

unfoldable pub atomic_thread_fence : MemoryOrder → List Instruction
unfolding between_barriers
atomic_thread_fence o = between_barriers (thread_fence o)

unfoldable pub atomic_signal_fence : MemoryOrder → List Instruction
unfolding between_barriers
atomic_signal_fence o = between_barriers (signal_fence o)

-- Operations of `Atomic<T>` on the word at an address. What they return, and the variable `expected`,
-- are local to the caller.
unfoldable pub barred_load : ℕ → List Instruction
unfolding between_barriers
barred_load a = between_barriers (load_from a)

unfoldable pub barred_store : ℕ → ℕ → List Instruction
unfolding between_barriers
barred_store v a = between_barriers (store_to a v)

unfoldable pub barred_exchange : ℕ → ℕ → List Instruction
unfolding between_barriers exchange
barred_exchange v a = between_barriers (modify_at a (λ m. (exchange v m).0))

unfoldable pub barred_compare_exchange_strong : ℕ → ℕ → ℕ → List Instruction
unfolding between_barriers compare_exchange_strong
barred_compare_exchange_strong expected desired a =
    between_barriers (modify_at a (λ m. (compare_exchange_strong expected desired m).0))

unfoldable pub barred_fetch_add : ℕ → ℕ → ℕ → List Instruction
unfolding between_barriers fetch_add
barred_fetch_add w v a = between_barriers (modify_at a (λ m. (fetch_add w v m).0))

unfoldable pub barred_test_and_set : ℕ → ℕ → List Instruction
unfolding between_barriers test_and_set
barred_test_and_set set_value a = between_barriers (modify_at a (λ m. (test_and_set set_value m).0))

-- The compiler may exchange the two.
abbrev pub independent : Instruction → Instruction → Bool
independent barrier _ = false
independent _ barrier = false
independent (store_to a v) (store_to b w) = not (a == b)
independent (store_to a v) (load_from b) = not (a == b)
independent (store_to a v) (modify_at b g) = not (a == b)
independent (load_from a) (store_to b w) = not (a == b)
independent (load_from a) (modify_at b g) = not (a == b)
independent (modify_at a f) (store_to b w) = not (a == b)
independent (modify_at a f) (load_from b) = not (a == b)
independent (modify_at a f) (modify_at b g) = not (a == b)
independent _ _ = true

-- The instructions at `n` and `n + 1` change places if they may.
unfoldable pub exchange_at : ℕ → List Instruction → List Instruction
exchange_at zero (i ∷ j ∷ is) = if independent i j then j ∷ i ∷ is else i ∷ j ∷ is
exchange_at (suc n) (i ∷ is) = i ∷ exchange_at n is
exchange_at _ is = is

-- The order that the compiler chooses, by the exchanges that lead to it.
unfoldable pub compiled : List ℕ → List Instruction → List Instruction
compiled [] is = is
compiled (n ∷ ns) is = compiled ns (exchange_at n is)

abbrev pub effect : Instruction → (ℕ → ℕ) → ℕ → ℕ
effect (store_to a v) m = update m a v
effect (modify_at a f) m = update m a (f (m a))
effect _ m = m

unfoldable pub perform : List Instruction → (ℕ → ℕ) → ℕ → ℕ
perform [] m = m
perform (i ∷ is) m = perform is (effect i m)

abbrev pub stores_to : Instruction → ℕ → Bool
stores_to (store_to b v) a = b == a
stores_to (modify_at b f) a = b == a
stores_to _ a = false

-- Some instruction writes to the address.
abbrev pub writes : ℕ → List Instruction → Bool
writes a [] = false
writes a (i ∷ is) = stores_to i a || writes a is

abbrev pub take {ℓ} : {A : Type ℓ} → ℕ → List A → List A
take (suc n) (x ∷ xs) = x ∷ take n xs
take _ _ = []
