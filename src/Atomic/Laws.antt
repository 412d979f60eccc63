-- ===== src/Atomic/Laws.antt =====
-- What the operations of the struct `Atomic<T>` (src/concurrentfw/atomic.hpp) keep and undo.
use native.Mathlib.Nat.{mod-lt, mod-add-mod, mod-eq_of_lt, add-mod_right}
use concurrentfw.Prelude.{ℕ, ◌+◌, ◌-◌, ◌%◌, ◌^◌, ◌<◌, ◌≡◌, ◌∙◌, ap, ◌≢◌, ◌↔◌, true, false, arith}
use concurrentfw.Prelude.Bits.{bit_and-lt, bit_or-lt, bit_xor-lt}
use concurrentfw.Atomic.{
  add_fetch, fetch_add, sub_fetch, fetch_sub, and_fetch, fetch_and, xor_fetch, fetch_xor, or_fetch,
  fetch_or, nand_fetch, fetch_nand, test_and_set, clear,
}

-- What an operation stores and what it returns are w-bit patterns.
abbrev pub Fits : ℕ → ℕ × ℕ → Type 0
Fits w r = (r.0 < 2 ^ w) × (r.1 < 2 ^ w)

-- The twelve operations.
pub record AllFit (w m v : ℕ) : Type 0 where
  pub add : Fits w (add_fetch w v m) × Fits w (fetch_add w v m)
  pub sub : Fits w (sub_fetch w v m) × Fits w (fetch_sub w v m)
  pub and : Fits w (and_fetch v m) × Fits w (fetch_and v m)
  pub xor : Fits w (xor_fetch v m) × Fits w (fetch_xor v m)
  pub or : Fits w (or_fetch v m) × Fits w (fetch_or v m)
  pub nand : Fits w (nand_fetch w v m) × Fits w (fetch_nand w v m)

-- On patterns of w bits, each of the twelve operations that fetch and modify stores and returns a
-- pattern of w bits.
pub fetch_modify-AllFit : (w m v : ℕ) → m < 2 ^ w → v < 2 ^ w → AllFit w m v
unfolding add_fetch fetch_add sub_fetch fetch_sub and_fetch fetch_and xor_fetch fetch_xor or_fetch
    fetch_or nand_fetch fetch_nand
fetch_modify-AllFit w m v hm hv =
    let some_bits : 0 < 2 ^ w = omega arith in
    let sum = mod-lt (m + v) some_bits in
    let difference = mod-lt (m + (2 ^ w - v)) some_bits in
    let conj = bit_and-lt w m v hm hv in
    let alt = bit_xor-lt w m v hm hv in
    let disj = bit_or-lt w m v hm hv in
    record {
      add = ((sum, sum), (sum, hm));
      sub = ((difference, difference), (difference, hm));
      and = ((conj, conj), (conj, hm));
      xor = ((alt, alt), (alt, hm));
      or = ((disj, disj), (disj, hm));
      nand = ((omega arith, omega arith), (omega arith, hm));
    }

wraps_back : (w m d v : ℕ) → m < 2 ^ w → d + v ≡ 2 ^ w → ((m + d) % 2 ^ w + v) % 2 ^ w ≡ m
wraps_back w m d v hm e =
    let sum : m + d + v ≡ m + 2 ^ w = omega (arith, e) in
    mod-add-mod (m + d) (2 ^ w) v
    ∙ ap (λ n. n % 2 ^ w) sum
    ∙ add-mod_right m (2 ^ w)
    ∙ mod-eq_of_lt hm

-- On patterns of w bits, subtracting what was added restores the word, and the other way round,
-- also where the sum or the difference wraps round.
pub fetch_sub-fetch_add :
    (w m v : ℕ)
    → m < 2 ^ w
    → v < 2 ^ w
    → ((fetch_sub w v (fetch_add w v m).0).0 ≡ m) × ((fetch_add w v (fetch_sub w v m).0).0 ≡ m)
unfolding fetch_sub fetch_add
fetch_sub-fetch_add w m v hm hv =
    (wraps_back w m v (2 ^ w - v) hm (omega arith), wraps_back w m (2 ^ w - v) v hm (omega arith))

-- `test_and_set`, with a non-zero set value, says false exactly on a byte that is clear; it leaves
-- the byte set, so that the next one says true, until a `clear`.
pub test_and_set-clear :
    (set_value m : ℕ)
    → set_value ≢ 0
    → (((test_and_set set_value m).1 ≡ false) ↔ (m ≡ 0))
      × ((test_and_set set_value (test_and_set set_value m).0).1 ≡ true)
      × ((test_and_set set_value (clear (test_and_set set_value m).0)).1 ≡ false)
unfolding test_and_set clear
test_and_set-clear set_value m ne = ground arith
