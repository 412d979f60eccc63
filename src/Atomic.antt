-- ===== src/Atomic.antt =====
-- src/concurrentfw/atomic.hpp: the struct `Atomic<T>` and the memory orders of its operations.
--
-- An operation on a T of w bits takes the bit pattern that is stored and gives the pattern stored
-- after it with what the call returns. The operations are indivisible, as the builtins
-- `__atomic_*` are; the `compiler_barrier` on both sides of each is in Atomic/Barrier.
pub mod Order
pub mod Views
pub mod Laws
pub mod Barrier
use concurrentfw.Prelude.{
  ℕ, ◌+◌, ◌-◌, ◌%◌, ◌^◌, Bool, true, false, not, bit_and, bit_or, bit_xor, ◌==◌, if◌then◌else◌,
}

unfoldable pub load : ℕ → ℕ × ℕ
load m = (m, m)

unfoldable pub store : ℕ → ℕ → ℕ
store v m = v

-- the constructor `Atomic(value)`
unfoldable pub construct : ℕ → ℕ → ℕ
unfolding store
construct value m = store value m

unfoldable pub exchange : ℕ → ℕ → ℕ × ℕ
exchange v m = (v, m)

-- Returns the flag and the variable `expected` as it stands after the call.
unfoldable pub compare_exchange_strong : ℕ → ℕ → ℕ → ℕ × (Bool × ℕ)
compare_exchange_strong expected desired m =
    if m == expected then (desired, (true, expected)) else (m, (false, m))

-- The weak form may fail where the values agree: `spurious` is the hardware's choice.
unfoldable pub compare_exchange_weak : Bool → ℕ → ℕ → ℕ → ℕ × (Bool × ℕ)
unfolding compare_exchange_strong
compare_exchange_weak spurious expected desired m =
    if spurious then (m, (false, m)) else compare_exchange_strong expected desired m

module _ (w : ℕ) where
  unfoldable pub add_fetch : ℕ → ℕ → ℕ × ℕ
  add_fetch v m = ((m + v) % 2 ^ w, (m + v) % 2 ^ w)

  unfoldable pub fetch_add : ℕ → ℕ → ℕ × ℕ
  fetch_add v m = ((m + v) % 2 ^ w, m)

  unfoldable pub sub_fetch : ℕ → ℕ → ℕ × ℕ
  sub_fetch v m = ((m + (2 ^ w - v)) % 2 ^ w, (m + (2 ^ w - v)) % 2 ^ w)

  unfoldable pub fetch_sub : ℕ → ℕ → ℕ × ℕ
  fetch_sub v m = ((m + (2 ^ w - v)) % 2 ^ w, m)

  -- ~(m & v) in w bits
  unfoldable pub nand_fetch : ℕ → ℕ → ℕ × ℕ
  nand_fetch v m = (2 ^ w - 1 - bit_and m v, 2 ^ w - 1 - bit_and m v)

  unfoldable pub fetch_nand : ℕ → ℕ → ℕ × ℕ
  fetch_nand v m = (2 ^ w - 1 - bit_and m v, m)

unfoldable pub and_fetch : ℕ → ℕ → ℕ × ℕ
and_fetch v m = (bit_and m v, bit_and m v)

unfoldable pub fetch_and : ℕ → ℕ → ℕ × ℕ
fetch_and v m = (bit_and m v, m)

unfoldable pub xor_fetch : ℕ → ℕ → ℕ × ℕ
xor_fetch v m = (bit_xor m v, bit_xor m v)

unfoldable pub fetch_xor : ℕ → ℕ → ℕ × ℕ
fetch_xor v m = (bit_xor m v, m)

unfoldable pub or_fetch : ℕ → ℕ → ℕ × ℕ
or_fetch v m = (bit_or m v, bit_or m v)

unfoldable pub fetch_or : ℕ → ℕ → ℕ × ℕ
fetch_or v m = (bit_or m v, m)

-- `set_value` is the non-zero byte that the compiler stores; the result says whether the byte
-- was set.
unfoldable pub test_and_set : ℕ → ℕ → ℕ × Bool
test_and_set set_value m = (set_value, not (m == 0))

unfoldable pub clear : ℕ → ℕ
clear m = 0
