-- ===== src/X86/Narrow.antt =====
-- The double-word operations of src/concurrentfw/atomic_asm_x86.hpp on 32-bit words, on x86-64.
use concurrentfw.Prelude.{ℕ, ◌+◌, ◌*◌, ◌/◌, ◌%◌, ◌^◌, ◌<◌, ◌≡◌, arith}
use concurrentfw.Prelude.Bits.{bit_or-eq-add}
use concurrentfw.AbaWrapper.{Content, content}
use concurrentfw.X86.{narrow_dw_load, narrow_dw_store, shld32, shl32}

shld32-sum : (from to : ℕ) → from < 2 ^ 64 → shld32 from to ≡ to % 2 ^ 32 * 2 ^ 32 + from / 2 ^ 32
shld32-sum from to h =
    omega
      (arith, bit_or-eq-add 32 (to * 2 ^ 32 % 2 ^ 64) (from / 2 ^ 32) (omega arith) (omega arith))

-- The load takes a 64-bit word apart into its low and its high half, whatever `rdx` holds.
pub narrow_dw_load_lem :
    (dx memory : ℕ)
    → memory < 2 ^ 64
    → narrow_dw_load dx memory ≡ content (memory % 2 ^ 32) (memory / 2 ^ 32)
unfolding narrow_dw_load
narrow_dw_load_lem dx memory h = ground (arith, shld32-sum memory dx h)

-- What the store has written, the load reads: for two 32-bit words, whatever the upper halves of the
-- registers hold, and the word in memory is the second above the first.
pub narrow_dw_load-narrow_dw_store :
    (dx upper_bx upper_cx : ℕ) (desired : Content)
    → desired.value < 2 ^ 32
    → desired.counter < 2 ^ 32
    → (narrow_dw_store upper_bx upper_cx desired ≡ desired.counter * 2 ^ 32 + desired.value)
      × (narrow_dw_load dx (narrow_dw_store upper_bx upper_cx desired) ≡ desired)
unfolding narrow_dw_store
narrow_dw_load-narrow_dw_store dx ub uc desired lo hi =
    let stored : narrow_dw_store ub uc desired ≡ desired.counter * 2 ^ 32 + desired.value = omega (
      arith,
      shld32-sum (shl32 (ub * 2 ^ 32 + desired.value)) (uc * 2 ^ 32 + desired.counter)
          (omega arith),
    ) in
    (
      stored,
      ground (
        arith,
        stored,
        narrow_dw_load_lem dx (narrow_dw_store ub uc desired) (omega (arith, stored)),
      ),
    )
