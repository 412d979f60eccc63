-- ===== src/Prelude/Modulus.antt =====
-- Counters that wrap round.
use Prim.Native.Nat.{ℕ, zero, suc, ◌^◌, ◌+◌, ◌-◌, ◌%◌, ◌≤◌, ◌<◌}
use mathlib.Core.Path.{◌≡◌, sym, ◌∙◌, ap}
use native.Mathlib.Nat.{mod-lt, mod-add-mod, mod-eq_of_lt, mod-eq-sub-mod, two-pow-succ}
use native.Mathlib.Decide.{dec_lt}
use native.Mathlib.Omega.{arith}

offset_within : (r d m : ℕ) → r < m → d < m → (r + d) % m ≡ r → d ≡ 0
offset_within r d m hr hd e = elim (dec_lt (r + d) m) [
  | yes fits ↦ let kept : (r + d) % m ≡ r + d = mod-eq_of_lt fits in omega (arith, kept, e)
  | no wraps ↦
      let once : (r + d) % m ≡ r + d - m =
        mod-eq-sub-mod (omega (arith, wraps)) ∙ mod-eq_of_lt (omega (arith, wraps)) in
      omega (arith, once, e)
]

-- Two counts less than a turn apart that agree round the turn agree.
pub mod_within : (a b m : ℕ) → a ≤ b → b < a + m → a % m ≡ b % m → a ≡ b
mod_within a b m le lt e =
    let apart : (a % m + (b - a)) % m ≡ a % m =
      mod-add-mod a m (b - a) ∙ ap (λ (t : ℕ). t % m) (omega arith) ∙ sym e in
    let none = offset_within (a % m) (b - a) m (mod-lt a (omega arith)) (omega arith) apart in
    omega (arith, none)

pub lt-two_pow : (n : ℕ) → n < 2 ^ n
lt-two_pow zero = omega arith
lt-two_pow (suc n) = omega (arith, lt-two_pow n, two-pow-succ n)

pub one-lt-two_pow : (w : ℕ) → 0 < w → 1 < 2 ^ w
one-lt-two_pow zero some_bits = absurd (omega arith)
one-lt-two_pow (suc w) some_bits = omega (arith, lt-two_pow w, two-pow-succ w)
