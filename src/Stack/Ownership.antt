-- ===== src/Stack/Ownership.antt =====
-- No block that passes through the class `Stack` (src/stack.cpp) is lost or handed out twice.
use concurrentfw.Prelude.{
  ℕ, ◌+◌, ◌^◌, ◌<◌, ◌≡◌, refl, ◌≢◌, Bool, true, false, Option, none, some, List, [], ◌∷◌, has,
  arith,
}
use concurrentfw.Stack.{Block, Event, silent, pushed, popped, found_empty}
use concurrentfw.Stack.Chain.{Chain-distinct}
use concurrentfw.Stack.System.{
  System, init, settle, Step, call_push, call_pop, recover, use_block, hand_over, access, Run,
  start, later,
}
use concurrentfw.Stack.Invariant.Accesses.{Spec, HoldsIn}
use concurrentfw.Stack.Refinement.{
  replay, replay-append, perform-Spec, Step-Holds, Step-grows, init-Holds,
}

abbrev pub is_free : Option ℕ → Bool
is_free none = true
is_free (some i) = false

-- An event moves its block between its owner and the stack.
pub settle-is_free :
    (i : ℕ) (e : Event) (owner : Block → Option ℕ) (xs ys : List Block) (b : Block)
    → Spec xs e ys
    → ((x : Block) (zs : List Block) → xs ≡ x ∷ zs → has x zs ≡ false)
    → has b xs ≡ is_free (owner b)
    → has b ys ≡ is_free (settle i e owner b)
settle-is_free i silent owner xs ys b spec once h = rw spec h
settle-is_free i (pushed d) owner xs ys b spec once h = rw spec (ground arith)
settle-is_free i (popped d) owner xs ys b spec once h =
    let out = once d ys spec in
    let before : has b (d ∷ ys) ≡ is_free (owner b) = rw spec at h in ground arith
settle-is_free i found_empty owner xs ys b spec once h = rw spec.1 (rw spec.0 at h)

module _ (w : ℕ) where
  Step-is_free :
      {s t : System} {e : Event} {xs : List Block} (ys : List Block)
      → Step w s e t
      → HoldsIn s xs
      → Spec xs e ys
      → (b : Block) → has b xs ≡ is_free (s.owner b)
      → has b ys ≡ is_free (t.owner b)
  Step-is_free ys (call_push i d e own) inv spec b h = rw spec h
  Step-is_free ys (call_pop i e) inv spec b h = rw spec h
  Step-is_free ys (recover i e) inv spec b h = rw spec h
  Step-is_free ys (use_block i d word e own) inv spec b h = rw spec h
  Step-is_free ys (hand_over i j d e own) inv spec b h = rw spec (ground arith)
  Step-is_free {s} {xs} ys (access i) inv spec b h =
      settle-is_free i _ s.owner xs ys b spec (Chain-distinct inv.chain) h

  module _ (link : Block → ℕ) (owner : Block → Option ℕ) where
    Run-is_free :
        {es : List Event} {t : System}
        → Run w (init link owner) es t
        → t.changes + 1 < 2 ^ w
        → (xs : List Block) × (replay es [] ≡ some xs)
          × HoldsIn t xs
          × ((b : Block) → owner b ≢ none → has b xs ≡ is_free (t.owner b))
    unfolding replay init
    Run-is_free start bound = ([], refl, init-Holds w link owner, λ b owned. ground arith)
    Run-is_free (later {es} {e} r st) bound =
        let (xs, so_far, inv, kept) = Run-is_free r (omega (arith, Step-grows w st)) in
        let (ys, inv', does) = Step-Holds w st inv bound in
        (
          ys,
          replay-append es e [] so_far (perform-Spec xs e ys does),
          inv',
          λ b owned. Step-is_free ys st inv does b (kept b owned),
        )

    -- In every run from a new stack in which the counter does not wrap, the history leaves a sequential
    -- stack with some blocks, and a block that had an owner at the start is one of them if nobody
    -- owns it now, and is not if somebody does.
    pub conserved :
        {es : List Event} {t : System}
        → Run w (init link owner) es t
        → t.changes + 1 < 2 ^ w
        → (b : Block) → owner b ≢ none
        → (xs : List Block) × (replay es [] ≡ some xs) × (has b xs ≡ is_free (t.owner b))
    conserved r bound b owned =
        let (xs, legal, inv, kept) = Run-is_free r bound in (xs, legal, kept b owned)
