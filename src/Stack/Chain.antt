-- ===== src/Stack/Chain.antt =====
-- The blocks of a stack: a chain of links from the top to null through distinct blocks.
use concurrentfw.Prelude.{ℕ, ◌≡◌, refl, ◌≢◌, false, List, [], ◌∷◌, update, has, arith}
use concurrentfw.Stack.{Block, null}

pub data Chain (link : Block → ℕ) : Block → List Block → Type 0 where
  nil : {p : Block} → p ≡ null → Chain link p []
  cons :
      {p q : Block} {xs : List Block}
      → p ≢ null
      → has p xs ≡ false
      → link p ≡ q
      → Chain link q xs
      → Chain link p (p ∷ xs)

module _ {link : Block → ℕ} where
  -- A write to a block outside the chain leaves it as it is.
  pub Chain-update :
      {p : Block} {xs : List Block} (b : Block) (word : ℕ)
      → Chain link p xs
      → has b xs ≡ false
      → Chain (update link b word) p xs
  Chain-update b word (nil e) out = nil e
  Chain-update b word (cons ne new e c) out =
      cons ne new (ground arith) (Chain-update b word c (ground arith))

  -- A chain from a block holds that block, and the rest hangs on its link.
  pub Chain-top :
      {p : Block} {xs : List Block}
      → Chain link p xs
      → p ≢ null
      → (ys : List Block) × (xs ≡ p ∷ ys) × Chain link (link p) ys × (has p ys ≡ false)
  Chain-top (nil e) ne = absurd (ne e)
  Chain-top (cons {xs} ne new e c) _ = (xs, refl, rw e c, new)

  pub Chain-null : {p : Block} {xs : List Block} → Chain link p xs → p ≡ null → xs ≡ []
  Chain-null (nil e) z = refl
  Chain-null (cons ne new e c) z = absurd (ne z)

  -- The top of a chain stands in it once.
  pub Chain-distinct :
      {p : Block} {xs : List Block}
      → Chain link p xs
      → (x : Block) (ys : List Block) → xs ≡ x ∷ ys
      → has x ys ≡ false
  Chain-distinct (nil e) x ys h = cc
  Chain-distinct (cons ne new e c) x ys h = ground arith
