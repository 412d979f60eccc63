-- ===== src/Prelude/Chains.antt =====
-- Membership in a list of addresses, as a Boolean test.
use Prim.Native.Nat.{ℕ, zero, suc}
use mathlib.Core.Bool.{Bool, false, ◌||◌}
use mathlib.Core.List.{List, [], ◌∷◌}
use concurrentfw.Prelude.Tests.{◌==◌}

abbrev pub has : ℕ → List ℕ → Bool
has a [] = false
has a (x ∷ xs) = (x == a) || has a xs

abbrev pub length {ℓ} : {A : Type ℓ} → List A → ℕ
length [] = zero
length (_ ∷ xs) = suc (length xs)
