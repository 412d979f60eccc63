-- ===== src/Futex/Request/Examples.antt =====
-- The theorems on the arguments of the system call with the constants of Linux.
use concurrentfw.Prelude.{ℕ, ◌≡◌, refl, Option, none, some, arith, ◌==◌, if◌then◌else◌}
use concurrentfw.Futex.Op.{Op, OpArgShift, Cmp, Constants, encode}
use concurrentfw.Futex.Request.{
  Kind, wait_private, wake_private, cmp_requeue_private, wake_op_private, wait_bitset_private,
  wake_bitset_private, Codes, Request, futex_wait, futex_wake, futex_cmp_requeue, futex_wake_op,
  futex_wait_bitset, futex_wake_bitset, Meaning, wait, wake, cmp_requeue, wake_op, wait_bitset,
  wake_bitset, read, read_all,
}

-- The constants as the headers of Linux give them.
linux_constants : Constants
linux_constants = record {
  op_code = elim [ Op.set ↦ 0 | Op.add ↦ 1 | Op.or ↦ 2 | Op.andn ↦ 3 | Op.xor ↦ 4 ];
  cmp_code = elim [ Cmp.eq ↦ 0 | Cmp.ne ↦ 1 | Cmp.lt ↦ 2 | Cmp.le ↦ 3 | Cmp.gt ↦ 4 | Cmp.ge ↦ 5 ];
  op_fits = λ o. ground arith;
  cmp_fits = λ c. ground arith;
}

encode_linux : encode linux_constants OpArgShift.shift Op.add Cmp.gt 5 0 ≡ 0x94005000
unfolding encode linux_constants
encode_linux = refl

abbrev linux_code : Kind → ℕ
linux_code wait_private = 128
linux_code wake_private = 129
linux_code cmp_requeue_private = 132
linux_code wake_op_private = 133
linux_code wait_bitset_private = 137
linux_code wake_bitset_private = 138

abbrev linux_kind : ℕ → Option Kind
linux_kind n =
    if n == 128
    then some wait_private
    else if n == 129
    then some wake_private
    else if n == 132
    then some cmp_requeue_private
    else if n == 133
    then some wake_op_private
    else if n == 137
    then some wait_bitset_private
    else if n == 138
    then some wake_bitset_private
    else none

linux_kind-linux_code : (k : Kind) → linux_kind (linux_code k) ≡ some k
linux_kind-linux_code k = ground arith

abbrev linux_codes : Codes
linux_codes = record {
  code = linux_code;
  kind_of = linux_kind;
  kind_of-code = linux_kind-linux_code;
}

abbrev reads : Request → Option (Meaning linux_constants linux_codes)
reads = read linux_constants linux_codes

read_all_example :
    (reads (futex_wait linux_constants linux_codes 2 none) ≡ some (wait 2 none))
    × (reads (futex_wake linux_constants linux_codes 1) ≡ some (wake 1))
    × (reads (futex_cmp_requeue linux_constants linux_codes 1 5 4096 2)
        ≡ some (cmp_requeue 1 5 4096 2))
    × (reads (
          futex_wake_op linux_constants linux_codes 1 5 4096 Cmp.gt 0x1234 Op.add 7
            OpArgShift.shift)
        ≡ some (wake_op 1 5 4096 1 1 4 7 0x234))
    × (reads (futex_wait_bitset linux_constants linux_codes 3 2 none) ≡ some (wait_bitset 3 2 none))
    × (reads (futex_wake_bitset linux_constants linux_codes 3 1) ≡ some (wake_bitset 3 1))
unfolding linux_constants
read_all_example =
    read_all linux_constants linux_codes 1 5 4096 2 3 none Cmp.gt 0x1234 Op.add 7 OpArgShift.shift
