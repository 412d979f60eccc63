-- ===== src/Prelude/Bits.antt =====
-- The bit operations as arithmetic: `|` of fields that do not meet, and `&` with a low mask. Each
-- law is an induction on the fuel of `digits`, the recursion that the operations stand for.
use Prim.Native.Nat.{
  ℕ, zero, suc, ◌+◌, ◌-◌, ◌*◌, ◌/◌, ◌%◌, ◌^◌, ◌≤◌, ◌<◌, min, max, digits, bit_and, bit_or,
  bit_and-bitwise, bit_or-bitwise, bit_xor, bit_xor-bitwise, differ,
}
use mathlib.Core.Path.{◌≡◌, refl, ap, ◌∙◌}
use native.Mathlib.Nat.{le_refl, pow-suc, one-le-pow}
use native.Mathlib.Omega.{arith}

abbrev or_digits : ℕ → ℕ → ℕ → ℕ
or_digits = digits (λ y. y) max

abbrev and_digits : ℕ → ℕ → ℕ → ℕ
and_digits = digits (λ _. 0) min

double_field : (q k : ℕ) → q * 2 ^ suc k ≡ 2 * (q * 2 ^ k)
double_field q k = omega (arith, ap (λ (t : ℕ). q * t) (pow-suc 2 k))

or_digits-zero : (fuel a : ℕ) → a ≤ fuel → or_digits fuel a 0 ≡ a
or_digits-zero zero a h = omega arith
or_digits-zero (suc fuel) zero h = refl
or_digits-zero (suc fuel) (suc a) h = omega (arith, or_digits-zero fuel (suc a / 2) (omega arith))

-- The high field is the first operand.
or_digits-high :
    (fuel k q a b : ℕ) → a ≤ fuel → a ≡ q * 2 ^ k → b < 2 ^ k → or_digits fuel a b ≡ a + b
or_digits-high zero k q a b h e fits = omega arith
or_digits-high (suc fuel) k q zero b h e fits = omega arith
or_digits-high (suc fuel) zero q (suc a) zero h e fits =
    omega (arith, or_digits-zero fuel (suc a / 2) (omega arith))
or_digits-high (suc fuel) zero q (suc a) (suc b) h e fits = absurd (omega arith)
or_digits-high (suc fuel) (suc k) q (suc a) b h e fits =
    let twice = double_field q k in
    let half = or_digits-high fuel k q (suc a / 2) (b / 2) (omega arith) in
    omega (arith, pow-suc 2 k, half (omega (arith, twice)) (omega (arith, pow-suc 2 k)), twice)

-- The high field is the second operand.
or_digits-low :
    (fuel k q a b : ℕ) → a ≤ fuel → b ≡ q * 2 ^ k → a < 2 ^ k → or_digits fuel a b ≡ a + b
or_digits-low zero k q a b h e fits = omega arith
or_digits-low (suc fuel) k q zero b h e fits = omega arith
or_digits-low (suc fuel) zero q (suc a) b h e fits = absurd (omega arith)
or_digits-low (suc fuel) (suc k) q (suc a) b h e fits =
    let twice = double_field q k in
    let half = or_digits-low fuel k q (suc a / 2) (b / 2) (omega arith) in
    omega (arith, pow-suc 2 k, half (omega (arith, twice)) (omega (arith, pow-suc 2 k)), twice)

and_digits-zero : (fuel a : ℕ) → a ≤ fuel → and_digits fuel a 0 ≡ 0
and_digits-zero zero a h = refl
and_digits-zero (suc fuel) zero h = refl
and_digits-zero (suc fuel) (suc a) h = omega (arith, and_digits-zero fuel (suc a / 2) (omega arith))

and_digits-mask :
    (fuel k q r a b : ℕ)
    → a ≤ fuel
    → a ≡ q * 2 ^ k + r
    → r < 2 ^ k
    → b + 1 ≡ 2 ^ k
    → and_digits fuel a b ≡ r
and_digits-mask zero k q r a b h e fits mask = omega arith
and_digits-mask (suc fuel) k q r zero b h e fits mask = omega arith
and_digits-mask (suc fuel) zero q r (suc a) zero h e fits mask =
    omega (arith, and_digits-zero fuel (suc a / 2) (omega arith))
and_digits-mask (suc fuel) zero q r (suc a) (suc b) h e fits mask = absurd (omega arith)
and_digits-mask (suc fuel) (suc k) q r (suc a) b h e fits mask =
    let twice = double_field q k in
    let pow = pow-suc 2 k in
    let half = and_digits-mask fuel k q (r / 2) (suc a / 2) (b / 2) (omega arith) in
    let b_odd : b % 2 ≡ 1 = omega (arith, pow) in
    omega
      (arith, half (omega (arith, twice)) (omega (arith, pow)) (omega (arith, pow)), twice, b_odd)

module _ (k q r : ℕ) (fits : r < 2 ^ k) where
  -- `(q << k) | r` is a sum where `r` fits k bits.
  pub bit_or_fields : bit_or (q * 2 ^ k) r ≡ q * 2 ^ k + r
  bit_or_fields =
      bit_or-bitwise (q * 2 ^ k) r ∙ or_digits-high _ k q (q * 2 ^ k) r (le_refl _) refl fits

  -- `r | (q << k)` is the same sum.
  pub bit_or_fields_swapped : bit_or r (q * 2 ^ k) ≡ r + q * 2 ^ k
  bit_or_fields_swapped =
      bit_or-bitwise r (q * 2 ^ k) ∙ or_digits-low _ k q r (q * 2 ^ k) (le_refl _) refl fits

-- A mask of the k low bits is the remainder by `2 ^ k`.
pub bit_and_mask : (k a : ℕ) → bit_and a (2 ^ k - 1) ≡ a % 2 ^ k
bit_and_mask k a =
    let pos = one-le-pow k 2 in
    bit_and-bitwise a (2 ^ k - 1)
    ∙ and_digits-mask a k (a / 2 ^ k) (a % 2 ^ k) a (2 ^ k - 1) (le_refl _) (ground (arith, pos))
        (ground (arith, pos)) (ground (arith, pos))

-- `x | r` is a sum where the low k bits of x are clear and r fits them.
pub bit_or-eq-add : (k x r : ℕ) → x ≡ x / 2 ^ k * 2 ^ k → r < 2 ^ k → bit_or x r ≡ x + r
bit_or-eq-add k x r high fits =
    bit_or-bitwise x r ∙ or_digits-high x k (x / 2 ^ k) x r (le_refl _) high fits

-- A digit-wise operation on two numbers of k bits has k bits.
digits-lt :
    (z : ℕ → ℕ) (f : ℕ → ℕ → ℕ)
    → ((y : ℕ) → z y ≤ y)
    → ((x y : ℕ) → x < 2 → y < 2 → f x y < 2)
    → (fuel k a b : ℕ) → a < 2 ^ k
    → b < 2 ^ k
    → digits z f fuel a b < 2 ^ k
digits-lt z f hz hf zero k a b ha hb = omega (arith, hz b)
digits-lt z f hz hf (suc fuel) k zero b ha hb = omega (arith, hz b)
digits-lt z f hz hf (suc fuel) zero (suc a) b ha hb = absurd (omega arith)
digits-lt z f hz hf (suc fuel) (suc k) (suc a) b ha hb =
    let pow = pow-suc 2 k in
    let half =
      digits-lt z f hz hf fuel k (suc a / 2) (b / 2) (omega (arith, pow)) (omega (arith, pow)) in
    omega (arith, pow, half, hf (suc a % 2) (b % 2) (omega arith) (omega arith))

differ-lt : (x y : ℕ) → x < 2 → y < 2 → differ x y < 2
differ-lt zero y hx hy = hy
differ-lt (suc zero) zero hx hy = omega arith
differ-lt (suc zero) (suc y) hx hy = omega arith
differ-lt (suc (suc x)) y hx hy = absurd (omega arith)

module _ (k a b : ℕ) (ha : a < 2 ^ k) (hb : b < 2 ^ k) where
  pub bit_and-lt : bit_and a b < 2 ^ k
  bit_and-lt =
      rw bit_and-bitwise
        (digits-lt (λ _. 0) min (λ y. omega arith) (λ x y hx hy. omega arith) a k a b ha hb)

  pub bit_or-lt : bit_or a b < 2 ^ k
  bit_or-lt =
      rw bit_or-bitwise
        (digits-lt (λ y. y) max (λ y. omega arith) (λ x y hx hy. omega arith) a k a b ha hb)

  pub bit_xor-lt : bit_xor a b < 2 ^ k
  bit_xor-lt =
      rw bit_xor-bitwise (digits-lt (λ y. y) differ (λ y. omega arith) differ-lt a k a b ha hb)
