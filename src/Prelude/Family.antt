-- ===== src/Prelude/Family.antt =====
-- Families indexed by a number (threads, addresses), and their update at one index.
use Prim.Native.Nat.{ℕ}
use mathlib.Core.Path.{◌≡◌, refl, fun_ext, subst}
use mathlib.Core.Logic.{◌≢◌, ite}
use native.Mathlib.Decide.{ℕ_discrete}
use native.Mathlib.Omega.{arith}

abbrev pub update {ℓ} : {A : Type ℓ} → (ℕ → A) → ℕ → A → ℕ → A
update f i a j = ite (ℕ_discrete i j) a (f j)

module _ {ℓ} {A : Type ℓ} (f : ℕ → A) where
  pub update_self : (i : ℕ) (a : A) → update f i a i ≡ a
  update_self i a = ground arith

  pub update_ne : (i j : ℕ) (a : A) → i ≢ j → update f i a j ≡ f j
  update_ne i j a h = ground arith

pub update_twice {ℓ} :
    {A : Type ℓ} (f : ℕ → A) (i : ℕ) (x y : A) → update (update f i x) i y ≡ update f i y
update_twice f i x y = fun_ext (λ j. elim (ℕ_discrete i j) [
  | yes e ↦ rw (← e, update_self (update f i x) i y, update_self f i y) refl
  | no ne ↦ rw (update_ne (update f i x) i j y ne, update_ne f i j x ne, update_ne f i j y ne) refl
])

-- What holds of the updated member and of the others holds of all.
pub update_all {ℓ ℓ'} :
    {A : Type ℓ} {f : ℕ → A} (P : ℕ → A → Type ℓ') (i : ℕ) (a : A)
    → ((j : ℕ) → i ≢ j → P j (f j))
    → P i a
    → (j : ℕ) → P j (update f i a j)
update_all {f} P i a others self j = elim (ℕ_discrete i j) as (λ d. P j (ite d a (f j))) [
  | yes e ↦ subst (λ x. P x a) e self
  | no ne ↦ others j ne
]

pub update_both {ℓ ℓ' ℓ''} :
    {A : Type ℓ} {B : Type ℓ'} {f : ℕ → A} {g : ℕ → B} (R : ℕ → A → B → Type ℓ'') (i : ℕ) (a : A)
    (b : B)
    → ((j : ℕ) → i ≢ j → R j (f j) (g j))
    → R i a b
    → (j : ℕ) → R j (update f i a j) (update g i b j)
update_both {f} {g} R i a b others self j =
    elim (ℕ_discrete i j) as (λ d. R j (ite d a (f j)) (ite d b (g j))) [
      | yes e ↦ subst (λ x. R x a b) e self
      | no ne ↦ others j ne
    ]
