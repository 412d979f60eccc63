-- ===== src/MutexTest/Count.antt =====
-- How many members of a family pass a test.
use concurrentfw.Prelude.{
  bit, ℕ, zero, suc, ◌+◌, ◌≤◌, ◌<◌, ◌≡◌, refl, Bool, false, update, update_self, update_ne, arith,
  ℕ_discrete,
}

-- the number of members below the index that pass
unfoldable pub count {ℓ} : {A : Type ℓ} → ℕ → (A → Bool) → (ℕ → A) → ℕ
count zero passes f = 0
count (suc n) passes f = bit (passes (f n)) + count n passes f

module _ {ℓ} {A : Type ℓ} (passes : A → Bool) (f : ℕ → A) (i : ℕ) (a : A) where
  count-update_above : (n : ℕ) → n ≤ i → count n passes (update f i a) ≡ count n passes f
  unfolding count
  count-update_above zero le = refl
  count-update_above (suc n) le =
      rw (update_ne f i n a (omega arith), count-update_above n (omega arith)) refl

  pub count-update :
      (n : ℕ)
      → i < n
      → count n passes (update f i a) + bit (passes (f i)) ≡ count n passes f + bit (passes a)
  unfolding count
  count-update zero lt = absurd (omega arith)
  count-update (suc n) lt = elim (ℕ_discrete i n) [
    | yes e ↦ rw (← e, update_self f i a, count-update_above i (omega arith)) (omega arith)
    | no ne ↦ rw (update_ne f i n a ne) (omega (arith, count-update n (omega arith)))
  ]

  pub count-update_same :
      (n : ℕ) → passes (f i) ≡ passes a → count n passes (update f i a) ≡ count n passes f
  unfolding count
  count-update_same zero same = refl
  count-update_same (suc n) same = elim (ℕ_discrete i n) [
    | yes e ↦ rw (← e, update_self f i a, count-update_above i (omega arith), same) refl
    | no ne ↦ rw (update_ne f i n a ne, count-update_same n same) refl
  ]

pub count-none {ℓ} :
    {A : Type ℓ} (passes : A → Bool) (f : ℕ → A) (n : ℕ)
    → ((i : ℕ) → passes (f i) ≡ false)
    → count n passes f ≡ 0
unfolding count
count-none passes f zero none = refl
count-none passes f (suc n) none = rw (none n, count-none passes f n none) refl
