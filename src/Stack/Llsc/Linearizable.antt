-- ===== src/Stack/Llsc/Linearizable.antt =====
-- The class `Stack` (src/stack.cpp) on a platform with LLSC refines a stack of blocks, and loses and
-- doubles no block.
use concurrentfw.Prelude.{
  ℕ, ◌≡◌, refl, ◌≢◌, inl, inr, Option, none, some, List, [], ◌==◌, has, arith, Bool-cases,
}
use concurrentfw.Stack.{Block, null, Event}
use concurrentfw.Stack.Chain.{Chain, nil, Chain-distinct}
use concurrentfw.Stack.Invariant.Accesses.{Spec}
use concurrentfw.Stack.Refinement.{replay, replay-append, perform-Spec}
use concurrentfw.Stack.Ownership.{is_free, settle-is_free}
use concurrentfw.Stack.Llsc.{push_entry}
use concurrentfw.Stack.Llsc.System.{
  System, init, Step, call_push, call_pop, recover, use_block, hand_over, clear, access, Run, start,
  later,
}
use concurrentfw.Stack.Llsc.Invariant.{Local, quiet-Holds, clear-Holds, give-Holds, use-Holds}
use concurrentfw.Stack.Llsc.Accesses.{HoldsIn, goes}

push_entry-Local :
    (link : Block → ℕ) (s : System) (i : ℕ) (b : Block)
    → (b ≢ null → s.owner b ≡ some i)
    → Local link s.memory.stack (s.memory.reserved i) s.owner i (push_entry b)
unfolding push_entry
push_entry-Local link s i b own = elim (Bool-cases (b == null)) [
  | inl z ↦ rw z tt
  | inr n ↦ rw n (ground arith, own (ground arith))
]

-- A step from a stack of `xs`, with what it does to the blocks and to who owns them.
record Stepped (s t : System) (e : Event) (xs : List Block) : Type 0 where
  left : List Block
  holds : HoldsIn t left
  does : Spec xs e left
  owned : (b : Block) → has b xs ≡ is_free (s.owner b) → has b left ≡ is_free (t.owner b)

Step-Stepped :
    {s t : System} {e : Event} {xs : List Block} → Step s e t → HoldsIn s xs → Stepped s t e xs
Step-Stepped {s} {xs} (call_push i b e own) inv = record {
  left = xs;
  holds = quiet-Holds inv i _ (push_entry-Local s.memory.link s i b own);
  does = refl;
  owned = λ b h. h;
}
Step-Stepped {xs} (call_pop i e) inv = record {
  left = xs;
  holds = quiet-Holds inv i _ tt;
  does = refl;
  owned = λ b h. h;
}
Step-Stepped {xs} (recover i e) inv = record {
  left = xs;
  holds = quiet-Holds inv i _ tt;
  does = refl;
  owned = λ b h. h;
}
Step-Stepped {xs} (use_block i b word e own) inv = record {
  left = xs;
  holds = use-Holds inv i b word own e;
  does = refl;
  owned = λ b h. h;
}
Step-Stepped {s} {xs} (hand_over i j d e own) inv = record {
  left = xs;
  holds = give-Holds inv i d j own e;
  does = refl;
  owned = λ b h. ground arith;
}
Step-Stepped {xs} (clear i) inv = record {
  left = xs;
  holds = clear-Holds inv i;
  does = refl;
  owned = λ b h. h;
}
Step-Stepped {s} {xs} (access i) inv =
    let (ys, inv', spec) = goes inv i (s.pc i) refl (inv.local i) in
    record {
      left = ys;
      holds = inv';
      does = spec;
      owned = λ b h. settle-is_free i _ s.owner xs ys b spec (Chain-distinct inv.chain) h;
    }

init-Holds : (link : Block → ℕ) (owner : Block → Option ℕ) → HoldsIn (init link owner) []
unfolding init
init-Holds link owner = record { chain = nil refl; unowned = λ b h. cc; local = λ i. tt }

module _ (link : Block → ℕ) (owner : Block → Option ℕ) where
  -- What a run comes to.
  record Ran (es : List Event) (t : System) : Type 0 where
    blocks : List Block
    holds : HoldsIn t blocks
    legal : replay es [] ≡ some blocks
    owned : (b : Block) → owner b ≢ none → has b blocks ≡ is_free (t.owner b)

  Run-Ran : {es : List Event} {t : System} → Run (init link owner) es t → Ran es t
  unfolding replay init
  Run-Ran start = record {
    blocks = [];
    holds = init-Holds link owner;
    legal = refl;
    owned = λ b h. ground arith;
  }
  Run-Ran (later {es} {e} r st) =
      let before = Run-Ran r in
      let step = Step-Stepped st before.holds in
      record {
        blocks = step.left;
        holds = step.holds;
        legal =
            replay-append es e [] before.legal (perform-Spec before.blocks e step.left step.does);
        owned = λ b h. step.owned b (before.owned b h);
      }

  -- On a platform with LLSC, every run of any number of threads from a new stack, however long, gives
  -- a history that the sequential stack can make, and memory links exactly the blocks that it then
  -- holds, top first, each once.
  llsc_linearizable :
      {es : List Event} {t : System}
      → Run (init link owner) es t
      → (xs : List Block) × (replay es [] ≡ some xs) × Chain t.memory.link t.memory.stack xs
  llsc_linearizable r = let run = Run-Ran r in (run.blocks, run.legal, run.holds.chain)

  -- On a platform with LLSC, in every run from a new stack, the history leaves a sequential stack with
  -- some blocks, and a block that had an owner at the start is one of them if nobody owns it now, and
  -- is not if somebody does.
  llsc_conserved :
      {es : List Event} {t : System}
      → Run (init link owner) es t
      → (b : Block) → owner b ≢ none
      → (xs : List Block) × (replay es [] ≡ some xs) × (has b xs ≡ is_free (t.owner b))
  llsc_conserved r b owned = let run = Run-Ran r in (run.blocks, run.legal, run.owned b owned)

  -- On a platform with LLSC, in every run of any number of threads from a new stack, however long: the
  -- history is one that the sequential stack can make, memory links exactly the blocks that it then
  -- holds, top first, and a block that had an owner at the start is one of them if and only if nobody
  -- owns it now.
  pub llsc_safe :
      {es : List Event} {t : System}
      → Run (init link owner) es t
      → (b : Block) → owner b ≢ none
      → (xs : List Block) × (replay es [] ≡ some xs)
        × Chain t.memory.link t.memory.stack xs
        × (has b xs ≡ is_free (t.owner b))
  llsc_safe r b owned =
      let run = Run-Ran r in (run.blocks, run.legal, run.holds.chain, run.owned b owned)
