-- ===== src/Stack/Timely/Safe.antt =====
-- The class `Stack` (src/stack.cpp) is safe in runs of any length, as long as no thread sleeps through a
-- turn of the counter between its look at the stack and its compare-and-swap.
use native.Mathlib.Nat.{mod-eq_of_lt}
use concurrentfw.Prelude.{
  ℕ, ◌+◌, ◌^◌, ◌<◌, ◌≡◌, refl, ◌∙◌, sym, ◌≢◌, Option, none, some, List, [], has, arith,
}
use concurrentfw.Prelude.Modulus.{lt-two_pow, one-lt-two_pow}
use concurrentfw.Stack.{Block, Event}
use concurrentfw.Stack.Chain.{Chain}
use concurrentfw.Stack.System.{
  System, init, settle, tally, call_push, call_pop, recover, use_block, hand_over, access,
}
use concurrentfw.Stack.System
use concurrentfw.Stack.Refinement.{replay, Step-grows, linearizable}
use concurrentfw.Stack.Ownership.{is_free, conserved}
use concurrentfw.Stack.Timely.{Run, start, later}
use concurrentfw.Stack.Timely.Lift.{lift, lift_memory, lift_pc, AllCount}
use concurrentfw.Stack.Timely.Moves.{Step-lift, Step-AllCount}

module _ (w u : ℕ) where
  module _ (some_bits : 0 < w) (link : Block → ℕ) (owner : Block → Option ℕ) where
    start-AllCount : AllCount w (init link owner) (λ _. 0)
    unfolding init
    start-AllCount = record {
      now = sym (mod-eq_of_lt (one-lt-two_pow w some_bits));
      cached = λ i. tt;
    }

    start-lift : lift (init link owner) (λ _. 0) ≡ init link owner
    unfolding lift lift_memory lift_pc init
    start-lift = refl

    Run-AllCount :
        {es : List Event} {t : System} {seen : ℕ → ℕ}
        → Run w link owner es t seen
        → AllCount w t seen
    Run-AllCount start = start-AllCount
    Run-AllCount (later r st timely) = Step-AllCount w u st timely (Run-AllCount r)

    Run-lift :
        {es : List Event} {t : System} {seen : ℕ → ℕ}
        → Run w link owner es t seen
        → t.changes + 1 < 2 ^ u
        → System.Run u (init link owner) es (lift t seen)
    Run-lift start bound = rw start-lift System.start
    Run-lift (later r st timely) bound =
        System.later (Run-lift r (omega (arith, Step-grows w st)))
          (Step-lift w u st timely (Run-AllCount r) bound)

module _ (w : ℕ) (some_bits : 0 < w) (link : Block → ℕ) (owner : Block → Option ℕ) where
  -- With a counter of at least one bit, in every run from a new stack, of any length, in which no
  -- thread lets the counter make a whole turn between its last look at the stack and its
  -- compare-and-swap: the history is one that the sequential stack can make, memory links exactly the
  -- blocks that it then holds, top first, and a block that had an owner at the start is one of them
  -- if and only if nobody owns it now.
  pub timely_safe :
      {es : List Event} {t : System} {seen : ℕ → ℕ}
      → Run w link owner es t seen
      → (b : Block) → owner b ≢ none
      → (xs : List Block) × (replay es [] ≡ some xs)
        × Chain t.memory.link t.memory.stack.value xs
        × (has b xs ≡ is_free (t.owner b))
  unfolding lift lift_memory
  timely_safe {t} r b owned =
      let u = t.changes + 1 in
      let run = Run-lift w u some_bits link owner r (lt-two_pow u) in
      let (xs, legal, chain) = linearizable u link owner run (lt-two_pow u) in
      let (ys, legal', kept) = conserved u link owner run (lt-two_pow u) b owned in
      let one_history : some ys ≡ some xs = sym legal' ∙ legal in
      let one_stack : ys ≡ xs = cc in (xs, legal, chain, rw one_stack at kept)
