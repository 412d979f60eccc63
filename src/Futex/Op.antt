-- ===== src/Futex/Op.antt =====
-- `FutexBase::futex_wake_op` of src/concurrentfw/futex.hpp: the packing of its operation, its
-- comparison and their arguments into one 32-bit argument of the system call.
use concurrentfw.Prelude.{ℕ, ◌+◌, ◌*◌, ◌/◌, ◌%◌, ◌^◌, ◌<◌, ◌≡◌, bit_and, bit_or, arith}
use concurrentfw.Prelude.Bits.{bit_or-eq-add, bit_and_mask}

-- `enum class Op`, `OpArgShift` and `Cmp`
pub data Op : Type 0 where
  set add or andn xor : Op

pub data OpArgShift : Type 0 where
  direct shift : OpArgShift

pub data Cmp : Type 0 where
  eq ne lt le gt ge : Cmp

-- The constants FUTEX_OP_* and FUTEX_OP_CMP_* of <linux/futex.h>. Each fits the field that the
-- system call has for it: three bits beside the shift flag, and four bits.
pub record Constants : Type 0 where
  pub op_code : Op → ℕ
  pub cmp_code : Cmp → ℕ
  pub op_fits : (o : Op) → op_code o < 2 ^ 3
  pub cmp_fits : (c : Cmp) → cmp_code c < 2 ^ 4

abbrev pub shift_code : OpArgShift → ℕ
shift_code direct = 0
shift_code shift = 1

infixl 75 ◌<<◌
-- `<<` on uint32_t
abbrev ◌<<◌ : ℕ → ℕ → ℕ
x << k = x * 2 ^ k % 2 ^ 32

-- The fields of `val3`, as the system call reads them.
pub record Fields (v shift op cmp oparg cmparg : ℕ) : Type 0 where
  pub fits : v < 2 ^ 32
  pub shift_bit : v / 2 ^ 31 ≡ shift
  pub op_bits : v / 2 ^ 28 % 2 ^ 3 ≡ op
  pub cmp_bits : v / 2 ^ 24 % 2 ^ 4 ≡ cmp
  pub oparg_bits : v / 2 ^ 12 % 2 ^ 12 ≡ oparg
  pub cmparg_bits : v % 2 ^ 12 ≡ cmparg

module _ (h : Constants) where
  open h use {op_code, cmp_code, op_fits, cmp_fits}

  -- `val3`
  unfoldable pub encode : OpArgShift → Op → Cmp → (oparg cmparg : ℕ) → ℕ
  encode s o c oparg cmparg =
      bit_or
        (bit_or (bit_or (bit_or (shift_code s << 31) (op_code o << 28)) (cmp_code c << 24))
          (bit_and oparg 0xfff << 12))
        (bit_and cmparg 0xfff)

  shift-lt : (s : OpArgShift) → shift_code s < 2
  shift-lt s = ground arith

  encode-sum :
      (s : OpArgShift) (o : Op) (c : Cmp) (oparg cmparg : ℕ)
      → encode s o c oparg cmparg
        ≡ shift_code s * 2 ^ 31
          + op_code o * 2 ^ 28
          + cmp_code c * 2 ^ 24
          + oparg % 2 ^ 12 * 2 ^ 12
          + cmparg % 2 ^ 12
  unfolding encode
  encode-sum s o c oparg cmparg =
      let flag = shift-lt s in
      let of = op_fits o in
      let cf = cmp_fits c in
      let ma = bit_and_mask 12 oparg in
      let mc = bit_and_mask 12 cmparg in
      let v1 = bit_or (shift_code s << 31) (op_code o << 28) in
      let e1 =
        bit_or-eq-add 31 (shift_code s << 31) (op_code o << 28) (omega arith) (omega arith) in
      let v2 = bit_or v1 (cmp_code c << 24) in
      let e2 = bit_or-eq-add 28 v1 (cmp_code c << 24) (omega arith) (omega arith) in
      let v3 = bit_or v2 (bit_and oparg 0xfff << 12) in
      let e3 = bit_or-eq-add 24 v2 (bit_and oparg 0xfff << 12) (omega arith) (omega arith) in
      let e4 = bit_or-eq-add 12 v3 (bit_and cmparg 0xfff) (omega arith) (omega arith) in omega arith

  -- `futex_wake_op` packs its arguments so that the system call reads the shift flag, the operation
  -- and the comparison as they were given, and the two 16-bit arguments by their low twelve bits.
  pub encode-Fields :
      (s : OpArgShift) (o : Op) (c : Cmp) (oparg cmparg : ℕ)
      → Fields
          (encode s o c oparg cmparg)
          (shift_code s)
          (op_code o)
          (cmp_code c)
          (oparg % 2 ^ 12)
          (cmparg % 2 ^ 12)
  encode-Fields s o c oparg cmparg =
      omega (arith, encode-sum s o c oparg cmparg, op_fits o, cmp_fits c, shift-lt s)
