-- ===== src/Stack/Refinement.antt =====
-- The class `Stack` (src/stack.cpp) refines a stack of blocks, as long as its counter has not
-- wrapped round.
use concurrentfw.Prelude.{
  ℕ, ◌+◌, ◌^◌, ◌≤◌, ◌<◌, ◌≡◌, refl, ◌≢◌, inl, inr, Option, none, some, List, [], ◌∷◌, ◌++◌, ◌==◌,
  arith, Bool-cases, if◌then◌else◌,
}
use concurrentfw.Stack.{Block, null, Event, silent, pushed, popped, found_empty, push_entry}
use concurrentfw.Stack.Chain.{Chain, nil}
use concurrentfw.Stack.System.{
  System, init, tally, Step, call_push, call_pop, recover, use_block, hand_over, access, Run, start,
  later,
}
use concurrentfw.Stack.Invariant.{Local}
use concurrentfw.Stack.Invariant.Moves.{quiet-Holds, give-Holds, use-Holds}
use concurrentfw.Stack.Invariant.Accesses.{Spec, HoldsIn, goes}

-- The sequential stack, as a machine that refuses an event which it cannot make.
unfoldable pub perform : Event → List Block → Option (List Block)
perform silent xs = some xs
perform (pushed b) xs = some (b ∷ xs)
perform (popped b) [] = none
perform (popped b) (x ∷ xs) = if x == b then some xs else none
perform found_empty [] = some []
perform found_empty (x ∷ xs) = none

abbrev pub and_then : Option (List Block) → (List Block → Option (List Block)) → Option (List Block)
and_then none f = none
and_then (some xs) f = f xs

-- The events in order.
unfoldable pub replay : List Event → List Block → Option (List Block)
replay [] xs = some xs
replay (e ∷ es) xs = and_then (perform e xs) (replay es)

and_then_mono :
    (o : Option (List Block)) (f g : List Block → Option (List Block)) (ys zs : List Block)
    → ((xs : List Block) → f xs ≡ some ys → g xs ≡ some zs)
    → and_then o f ≡ some ys
    → and_then o g ≡ some zs
and_then_mono none f g ys zs h p = cc
and_then_mono (some xs) f g ys zs h p = h xs p

pub replay-append :
    (es : List Event) (e : Event) (xs : List Block) {ys zs : List Block}
    → replay es xs ≡ some ys
    → perform e ys ≡ some zs
    → replay (es ++ e ∷ []) xs ≡ some zs
unfolding replay
replay-append [] e xs {ys} {zs} p q = ground arith
replay-append (d ∷ es) e xs {ys} {zs} p q =
    and_then_mono (perform d xs) (replay es) (replay (es ++ e ∷ [])) ys zs
      (λ x h. replay-append es e x h q) p

pub perform-Spec :
    (xs : List Block) (e : Event) (ys : List Block) → Spec xs e ys → perform e xs ≡ some ys
unfolding perform
perform-Spec xs silent ys h = ground arith
perform-Spec xs (pushed b) ys h = ground arith
perform-Spec xs (popped b) ys h = rw h (ground arith)
perform-Spec xs found_empty ys h = rw (h.0, h.1) refl

module _ (w : ℕ) where
  tally-le : (e : Event) (n : ℕ) → n ≤ tally e n
  tally-le e n = ground arith

  pub Step-grows : {s t : System} {e : Event} → Step w s e t → s.changes ≤ t.changes
  Step-grows (access i) = tally-le _ _
  Step-grows (call_push i b e o) = omega arith
  Step-grows (call_pop i e) = omega arith
  Step-grows (recover i e) = omega arith
  Step-grows (use_block i b word e o) = omega arith
  Step-grows (hand_over i j b e o) = omega arith

  push_entry-Local :
      (link : Block → ℕ) (s : System) (i : ℕ) (b : Block)
      → (b ≢ null → s.owner b ≡ some i)
      → Local link s.memory.stack s.owner i (push_entry b)
  unfolding push_entry
  push_entry-Local link s i b own = elim (Bool-cases (b == null)) [
    | inl z ↦ rw z tt
    | inr n ↦ rw n (ground arith, own (ground arith))
  ]

  pub Step-Holds :
      {s t : System} {e : Event} {xs : List Block}
      → Step w s e t
      → HoldsIn s xs
      → t.changes + 1 < 2 ^ w
      → (ys : List Block) × HoldsIn t ys × Spec xs e ys
  Step-Holds {s} {xs} (call_push i b e own) inv bound =
      (xs, quiet-Holds inv i _ (push_entry-Local s.memory.link s i b own), refl)
  Step-Holds {xs} (call_pop i e) inv bound = (xs, quiet-Holds inv i _ tt, refl)
  Step-Holds {xs} (recover i e) inv bound = (xs, quiet-Holds inv i _ tt, refl)
  Step-Holds {xs} (use_block i b word e own) inv bound = (xs, use-Holds inv i b word own e, refl)
  Step-Holds {xs} (hand_over i j b e own) inv bound = (xs, give-Holds inv i b j own e, refl)
  Step-Holds {s} (access i) inv bound = goes w inv i (s.pc i) refl (inv.local i) bound

  pub init-Holds : (link : Block → ℕ) (owner : Block → Option ℕ) → HoldsIn (init link owner) []
  unfolding init
  init-Holds link owner = record {
    counted = omega arith;
    chain = nil refl;
    unowned = λ b h. cc;
    local = λ i. tt;
  }

  module _ (link : Block → ℕ) (owner : Block → Option ℕ) where
    pub Run-Holds :
        {es : List Event} {t : System}
        → Run w (init link owner) es t
        → t.changes + 1 < 2 ^ w
        → (xs : List Block) × HoldsIn t xs × (replay es [] ≡ some xs)
    unfolding replay
    Run-Holds start bound = ([], init-Holds link owner, refl)
    Run-Holds (later {es} {e} r st) bound =
        let (xs, inv, so_far) = Run-Holds r (omega (arith, Step-grows st)) in
        let (ys, inv', does) = Step-Holds st inv bound in
        (ys, inv', replay-append es e [] so_far (perform-Spec xs e ys does))

    -- Every run of any number of threads from a new stack, in which pushes and pops have taken
    -- effect fewer times than the counter has values, less one, gives a history that the sequential
    -- stack can make, and memory links exactly the blocks that it then holds, top first, each once.
    pub linearizable :
        {es : List Event} {t : System}
        → Run w (init link owner) es t
        → t.changes + 1 < 2 ^ w
        → (xs : List Block) × (replay es [] ≡ some xs) × Chain t.memory.link t.memory.stack.value xs
    linearizable r bound = let (xs, inv, legal) = Run-Holds r bound in (xs, legal, inv.chain)
