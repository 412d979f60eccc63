-- ===== src/Futex/Request.antt =====
-- `syscall_futex` and the operations of `FutexBase` in src/concurrentfw/futex.hpp: the arguments that
-- each hands to the system call, and how futex(2) reads them.
--
-- An `int` or `uint32_t` is its pattern of 32 bits, which the casts between the two keep.
mod Examples
use concurrentfw.Prelude.{ℕ, ◌+◌, ◌*◌, ◌/◌, ◌%◌, ◌^◌, ◌≡◌, ◌∙◌, ap, refl, Option, none, some, arith}
use concurrentfw.Futex.Op.{
  Op, OpArgShift, Cmp, Constants, shift_code, encode, Fields, encode-Fields,
}

-- The operations of the system call that the class uses.
pub data Kind : Type 0 where
  wait_private wake_private cmp_requeue_private wake_op_private : Kind
  wait_bitset_private wake_bitset_private : Kind

-- The constants FUTEX_*_PRIVATE of <linux/futex.h>, which tell the operations apart.
pub record Codes : Type 0 where
  pub code : Kind → ℕ
  pub kind_of : ℕ → Option Kind
  pub kind_of-code : (k : Kind) → kind_of (code k) ≡ some k

-- The fourth argument: a `timespec`, by its address or null, or a number in its place.
pub data Fourth : Type 0 where
  timeout : Option ℕ → Fourth
  val2 : ℕ → Fourth

-- The arguments behind the address of `value`; `addr2` is null for most.
pub record Request : Type 0 where
  pub op : ℕ
  pub val1 : ℕ
  pub fourth : Fourth
  pub addr2 : Option ℕ
  pub val3 : ℕ

-- the two overloads of `syscall_futex`
unfoldable pub syscall_futex : (op val1 : ℕ) → Fourth → Option ℕ → (val3 : ℕ) → Request
syscall_futex op val1 fourth addr2 val3 = record {
  op = op;
  val1 = val1;
  fourth = fourth;
  addr2 = addr2;
  val3 = val3;
}

module _ (h : Constants) (c : Codes) where
  open c use {code, kind_of, kind_of-code}

  unfoldable pub futex_wait : (expected : ℕ) → Option ℕ → Request
  unfolding syscall_futex
  futex_wait expected timeout_relative =
      syscall_futex (code wait_private) expected (timeout timeout_relative) none 0

  unfoldable pub futex_wake : (wakeups : ℕ) → Request
  unfolding syscall_futex
  futex_wake wakeups = syscall_futex (code wake_private) wakeups (timeout none) none 0

  unfoldable pub futex_cmp_requeue : (wakeups limit target expected : ℕ) → Request
  unfolding syscall_futex
  futex_cmp_requeue wakeups limit target expected =
      syscall_futex (code cmp_requeue_private) wakeups (val2 limit) (some target) expected

  unfoldable pub futex_wake_op :
      (wakeups1 wakeups2 address2 : ℕ)
      → Cmp
      → (cmparg : ℕ) → Op
      → (oparg : ℕ) → OpArgShift
      → Request
  unfolding syscall_futex encode
  futex_wake_op wakeups1 wakeups2 address2 cmp cmparg op oparg oparg_shift =
      syscall_futex (code wake_op_private) wakeups1 (val2 wakeups2) (some address2)
        (encode h oparg_shift op cmp oparg cmparg)

  unfoldable pub futex_wait_bitset : (mask expected : ℕ) → Option ℕ → Request
  unfolding syscall_futex
  futex_wait_bitset mask expected timeout_absolute =
      syscall_futex (code wait_bitset_private) expected (timeout timeout_absolute) none mask

  unfoldable pub futex_wake_bitset : (mask wakeups : ℕ) → Request
  unfolding syscall_futex
  futex_wake_bitset mask wakeups =
      syscall_futex (code wake_bitset_private) wakeups (timeout none) none mask

  -- What a request asks for, as futex(2) describes it.
  pub data Meaning : Type 0 where
    wait : (expected : ℕ) → Option ℕ → Meaning
    wake : (wakeups : ℕ) → Meaning
    cmp_requeue : (wakeups limit target expected : ℕ) → Meaning
    wake_op : (wakeups1 wakeups2 address2 shift op cmp oparg cmparg : ℕ) → Meaning
    wait_bitset : (mask expected : ℕ) → Option ℕ → Meaning
    wake_bitset : (mask wakeups : ℕ) → Meaning

  abbrev read_wake_op : (wakeups1 wakeups2 address2 v : ℕ) → Meaning
  read_wake_op n1 n2 a v =
      wake_op n1 n2 a (v / 2 ^ 31) (v / 2 ^ 28 % 2 ^ 3) (v / 2 ^ 24 % 2 ^ 4) (v / 2 ^ 12 % 2 ^ 12)
        (v % 2 ^ 12)

  -- What the system call reads: each operation looks at the arguments that it has.
  abbrev read_as : Kind → ℕ → Fourth → Option ℕ → ℕ → Option Meaning
  read_as wait_private v1 (timeout t) a2 v3 = some (wait v1 t)
  read_as wake_private v1 f a2 v3 = some (wake v1)
  read_as cmp_requeue_private v1 (val2 n) (some a) v3 = some (cmp_requeue v1 n a v3)
  read_as wake_op_private v1 (val2 n) (some a) v3 = some (read_wake_op v1 n a v3)
  read_as wait_bitset_private v1 (timeout t) a2 v3 = some (wait_bitset v3 v1 t)
  read_as wake_bitset_private v1 f a2 v3 = some (wake_bitset v3 v1)
  read_as _ v1 f a2 v3 = none

  abbrev pub read : Request → Option Meaning
  read r = elim (kind_of r.op) [ none ↦ none | some k ↦ read_as k r.val1 r.fourth r.addr2 r.val3 ]

  read_kind :
      (k : Kind) (v1 : ℕ) (f : Fourth) (a2 : Option ℕ) (v3 : ℕ)
      → read (record { op = code k; val1 = v1; fourth = f; addr2 = a2; val3 = v3 })
        ≡ read_as k v1 f a2 v3
  read_kind k v1 f a2 v3 = rw (read, kind_of-code k) refl

  -- Each of the six operations hands its arguments to the system call in the places where futex(2)
  -- reads them for that operation: values, counts, addresses, timeouts and masks as they were given,
  -- and of the packed argument of `futex_wake_op` all fields, the two 16-bit arguments by their low
  -- twelve bits.
  pub read_all :
      (n limit target expected mask : ℕ) (t : Option ℕ) (cmp : Cmp) (cmparg : ℕ) (op : Op)
      (oparg : ℕ) (s : OpArgShift)
      → (read (futex_wait expected t) ≡ some (wait expected t))
        × (read (futex_wake n) ≡ some (wake n))
        × (read (futex_cmp_requeue n limit target expected)
            ≡ some (cmp_requeue n limit target expected))
        × (read (futex_wake_op n limit target cmp cmparg op oparg s)
            ≡ some (
                wake_op n limit target
                  (shift_code s)
                  (h.op_code op)
                  (h.cmp_code cmp)
                  (oparg % 2 ^ 12)
                  (cmparg % 2 ^ 12)))
        × (read (futex_wait_bitset mask expected t) ≡ some (wait_bitset mask expected t))
        × (read (futex_wake_bitset mask n) ≡ some (wake_bitset mask n))
  unfolding futex_wait futex_wake futex_cmp_requeue futex_wake_op futex_wait_bitset
      futex_wake_bitset
  read_all n limit target expected mask t cmp cmparg op oparg s =
      let fields = encode-Fields h s op cmp oparg cmparg in
      let packed : read_wake_op n limit target (encode h s op cmp oparg cmparg)
          ≡ wake_op n limit target (shift_code s) (h.op_code op) (h.cmp_code cmp) (oparg % 2 ^ 12)
              (cmparg % 2 ^ 12) =
        rw
          (fields.shift_bit, fields.op_bits, fields.cmp_bits, fields.oparg_bits, fields.cmparg_bits)
          refl in
      (
        read_kind wait_private expected (timeout t) none 0,
        read_kind wake_private n (timeout none) none 0,
        read_kind cmp_requeue_private n (val2 limit) (some target) expected,
        read_kind wake_op_private n (val2 limit) (some target) (encode h s op cmp oparg cmparg)
            ∙ ap some packed,
        read_kind wait_bitset_private expected (timeout t) none mask,
        read_kind wake_bitset_private n (timeout none) none mask,
      )
