-- ===== src/StackTest/Sums.antt =====
-- Sums over the stacks and over the blocks of src/tests/test_stack.cpp.
use concurrentfw.Prelude.{
  ℕ, zero, suc, ◌+◌, ◌≤◌, ◌<◌, ◌≡◌, refl, sym, ap, ◌∙◌, Bool, true, false, not, ◌&&◌, List, [], ◌∷◌,
  has, length, arith, ◌==◌, ℕ_discrete, bit,
}
use concurrentfw.Stack.{Block}
use concurrentfw.Stack.Chain.{Chain, nil, cons}

abbrev pub distinct : List Block → Bool
distinct [] = true
distinct (x ∷ xs) = not (has x xs) && distinct xs

-- the sum over the numbers below `n`
abbrev pub sum : ℕ → (ℕ → ℕ) → ℕ
sum zero f = 0
sum (suc n) f = f n + sum n f

-- the sum over the blocks of a list
abbrev pub total : List Block → (Block → ℕ) → ℕ
total [] f = 0
total (b ∷ bs) f = f b + total bs f

pub Chain-distinct_all :
    {link : Block → ℕ} {p : Block} {xs : List Block} → Chain link p xs → distinct xs ≡ true
Chain-distinct_all (nil e) = refl
Chain-distinct_all (cons ne new e c) = rw (new, Chain-distinct_all c) refl

pub sum-cong : (n : ℕ) (f g : ℕ → ℕ) → ((m : ℕ) → f m ≡ g m) → sum n f ≡ sum n g
sum-cong zero f g same = refl
sum-cong (suc n) f g same = rw (same n, sum-cong n f g same) refl

pub sum-le : (n m : ℕ) (f : ℕ → ℕ) → m < n → f m ≤ sum n f
sum-le zero m f lt = absurd (omega arith)
sum-le (suc n) m f lt = elim (ℕ_discrete m n) [
  | yes e ↦ rw e (omega arith)
  | no ne ↦ omega (arith, sum-le n m f (omega arith))
]

sum-one_above : (n m : ℕ) → n ≤ m → sum n (λ k. bit (m == k)) ≡ 0
sum-one_above zero m le = refl
sum-one_above (suc n) m le = ground (arith, sum-one_above n m (omega arith))

-- Exactly one number below `n` is `m`.
pub sum-one : (n m : ℕ) → m < n → sum n (λ k. bit (m == k)) ≡ 1
sum-one zero m lt = absurd (omega arith)
sum-one (suc n) m lt = elim (ℕ_discrete m n) [
  | yes e ↦ ground (arith, e, sum-one_above n m (omega arith))
  | no ne ↦ ground (arith, sum-one n m (omega arith))
]

pub total-cong :
    (bs : List Block) (f g : Block → ℕ)
    → ((b : Block) → has b bs ≡ true → f b ≡ g b)
    → total bs f ≡ total bs g
total-cong [] f g same = refl
total-cong (b ∷ bs) f g same =
    let rest = total-cong bs f g (λ d h. same d (ground arith)) in
    let first = same b (ground arith) in omega (arith, first, rest)

pub total-add :
    (bs : List Block) (f g : Block → ℕ) → total bs (λ b. f b + g b) ≡ total bs f + total bs g
total-add [] f g = refl
total-add (b ∷ bs) f g = omega (arith, total-add bs f g)

pub total-ones : (bs : List Block) → total bs (λ _. 1) ≡ length bs
total-ones [] = refl
total-ones (b ∷ bs) = omega (arith, total-ones bs)

total-zero : (bs : List Block) → total bs (λ _. 0) ≡ 0
total-zero [] = refl
total-zero (b ∷ bs) = omega (arith, total-zero bs)

-- The two sums change places.
pub sum-total :
    (n : ℕ) (bs : List Block) (f : ℕ → Block → ℕ)
    → sum n (λ m. total bs (f m)) ≡ total bs (λ b. sum n (λ m. f m b))
sum-total zero bs f = sym (total-zero bs)
sum-total (suc n) bs f =
    ap (λ t. total bs (f n) + t) (sum-total n bs f)
    ∙ sym (total-add bs (f n) (λ b. sum n (λ m. f m b)))

total-one_absent :
    (bs : List Block) (x : Block) → has x bs ≡ false → total bs (λ b. bit (x == b)) ≡ 0
total-one_absent [] x out = refl
total-one_absent (b ∷ bs) x out = ground (arith, total-one_absent bs x)

total-one :
    (bs : List Block) (x : Block)
    → distinct bs ≡ true
    → has x bs ≡ true
    → total bs (λ b. bit (x == b)) ≡ 1
total-one [] x once at = absurd (cc)
total-one (b ∷ bs) x once at = elim (ℕ_discrete x b) [
  | yes e ↦ ground (arith, e, total-one_absent bs x)
  | no ne ↦ ground (arith, total-one bs x)
]

-- The length of a list within another, neither with a block twice.
pub length-total :
    (xs bs : List Block)
    → distinct xs ≡ true
    → distinct bs ≡ true
    → ((b : Block) → has b xs ≡ true → has b bs ≡ true)
    → length xs ≡ total bs (λ b. bit (has b xs))
length-total [] bs once once' within = sym (total-zero bs)
length-total (x ∷ xs) bs once once' within =
    let first = total-one bs x once' (within x (ground arith)) in
    let rest = length-total xs bs (ground arith) once' (λ b h. within b (ground arith)) in
    let apart =
      total-cong bs (λ b. bit (has b (x ∷ xs))) (λ b. bit (x == b) + bit (has b xs))
        (λ b h. ground arith) in
    let split = total-add bs (λ b. bit (x == b)) (λ b. bit (has b xs)) in
    omega (arith, first, rest, apart, split)
