-- ===== src/Arm/Pairs.antt =====
-- The pairs of words in src/concurrentfw/atomic_asm_arm.hpp: on 64-bit ARM two registers, on 32-bit
-- ARM one 64-bit value in two registers, which is put together and taken apart by shifts.
use concurrentfw.Prelude.{ℕ, ◌+◌, ◌*◌, ◌/◌, ◌%◌, ◌^◌, ◌<◌, ◌≡◌, ◌∙◌, Bool, bit_or, arith, ◌==◌}
use concurrentfw.Prelude.Bits.{bit_or_fields_swapped}
use concurrentfw.Arm.{Monitor, load_exclusive, store_exclusive}

-- `static_cast<uint64_t>(transfer[0]) | (static_cast<uint64_t>(transfer[1]) << 32)`
unfoldable pub pack : ℕ × ℕ → ℕ
pack t = bit_or t.0 (t.1 * 2 ^ 32 % 2 ^ 64)

-- `static_cast<uint32_t>(pair)` and `static_cast<uint32_t>(pair >> 32)`
unfoldable pub unpack : ℕ → ℕ × ℕ
unpack pair = (pair % 2 ^ 32, pair / 2 ^ 32 % 2 ^ 32)

-- `atomic_exclusive_load_pair_aquire` on 64-bit ARM: both transfer registers are written
unfoldable pub load_pair : Monitor (ℕ × ℕ) → Monitor (ℕ × ℕ) × (ℕ × ℕ)
unfolding load_exclusive
load_pair m = load_exclusive m

-- `atomic_exclusive_store_pair_release` on 64-bit ARM
unfoldable pub store_pair : ℕ × ℕ → Monitor (ℕ × ℕ) → Monitor (ℕ × ℕ) × Bool
unfolding store_exclusive
store_pair transfer m = let (m', failed) = store_exclusive transfer m in (m', failed == 0)

-- The same two on 32-bit ARM, with the location as one 64-bit value.
unfoldable pub load_pair32 : Monitor ℕ → Monitor ℕ × (ℕ × ℕ)
unfolding load_exclusive unpack
load_pair32 m = let (m', pair) = load_exclusive m in (m', unpack pair)

unfoldable pub store_pair32 : ℕ × ℕ → Monitor ℕ → Monitor ℕ × Bool
unfolding store_exclusive pack
store_pair32 transfer m = let (m', failed) = store_exclusive (pack transfer) m in (m', failed == 0)

-- the location that holds a pair, as one value
abbrev pub as_one : Monitor (ℕ × ℕ) → Monitor ℕ
as_one m = record { memory = m.memory.0 + m.memory.1 * 2 ^ 32; reserved = m.reserved }

pub pack-sum : (a b : ℕ) → a < 2 ^ 32 → b < 2 ^ 32 → pack (a, b) ≡ a + b * 2 ^ 32
unfolding pack
pack-sum a b ha hb =
    let short : b * 2 ^ 32 % 2 ^ 64 ≡ b * 2 ^ 32 = omega arith in
    rw short (bit_or_fields_swapped 32 b a ha)

-- On words of 32 bits, packing and unpacking are inverse to one another.
pub unpack-pack :
    (a b : ℕ)
    → a < 2 ^ 32
    → b < 2 ^ 32
    → (unpack (pack (a, b)) ≡ (a, b)) × (pack (unpack (a + b * 2 ^ 32)) ≡ a + b * 2 ^ 32)
unfolding unpack
unpack-pack a b ha hb =
    (ground (arith, pack-sum a b ha hb), pack-sum _ _ (omega arith) (omega arith) ∙ omega arith)

-- The pair operations of 32-bit ARM do to the 64-bit value what those of 64-bit ARM do to the pair.
pub pair32_refines :
    (m : Monitor (ℕ × ℕ)) (transfer : ℕ × ℕ)
    → m.memory.0 < 2 ^ 32
    → m.memory.1 < 2 ^ 32
    → transfer.0 < 2 ^ 32
    → transfer.1 < 2 ^ 32
    → (load_pair32 (as_one m) ≡ (as_one (load_pair m).0, (load_pair m).1))
      × (store_pair32 transfer (as_one m)
          ≡ (as_one (store_pair transfer m).0, (store_pair transfer m).1))
unfolding load_pair32 load_pair store_pair32 store_pair
pair32_refines m transfer h0 h1 t0 t1 =
    (ground arith, ground (arith, pack-sum transfer.0 transfer.1 t0 t1))
