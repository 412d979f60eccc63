-- ===== src/StackTest/Range.antt =====
-- Which stacks of src/tests/test_stack.cpp hold blocks, and which blocks are in play.
use concurrentfw.Prelude.{
  ℕ, ◌+◌, ◌^◌, ◌<◌, ◌≡◌, refl, ◌≢◌, Bool, true, false, update, update_self, arith, subst,
  update_all,
}
use native.Mathlib.Nat.{mod-lt}
use concurrentfw.Stack.{Block, Pc, Event, silent, pushed, popped, found_empty}
use concurrentfw.StackTest.{
  Place, nowhere, on, first_place, Stage, Worker, Bench, settle_place, after, after_push, called,
  worker_no, memory_of, prepared, Move, fills, has_filled, spawns, ends, leaves, goes_in, goes_out,
  pops, pushes, accesses, Reach, start, later,
}
use concurrentfw.StackTest.Elsewhere.{here-Kept}
use concurrentfw.StackTest.Hands.{
  Access, goes_on, has_popped, is_empty, has_pushed, has_put, classify,
}
use concurrentfw.StackTest.Invariant.{InOrder}
use concurrentfw.StackTest.Conserved.{Reach-InOrder, Move-grows}

pub record InRange (threads : ℕ) (allocated : Block → Bool) (place : Block → Place) : Type 0 where
  pub on_within : (b : Block) (m : ℕ) → place b ≡ on m → m < threads
  pub only : (b : Block) → place b ≢ nowhere → allocated b ≡ true

module _ {threads : ℕ} {allocated : Block → Bool} {place : Block → Place} where
  -- A block is put onto the stack that the thread pushes to.
  settle-InRange :
      {i m : ℕ} {q : Stage} {e : Event} {p : Pc} (push_thread : ℕ)
      → Access place i m q e p
      → called q (worker_no i) push_thread ≡ m
      → push_thread < threads
      → InRange threads allocated place
      → InRange threads allocated (settle_place i m e place)
  settle-InRange t (goes_on fits) at_m lt inv = inv
  settle-InRange t is_empty at_m lt inv = inv
  settle-InRange t (has_popped b was) at_m lt inv = record {
    on_within = λ d n e. ground (arith, inv.on_within d n);
    only = λ d ne. ground (arith, inv.only d, inv.only b);
  }
  settle-InRange t (has_pushed b was) at_m lt inv = record {
    on_within = λ d n e. ground (arith, inv.on_within d n);
    only = λ d ne. ground (arith, inv.only d, inv.only b);
  }
  settle-InRange t (has_put b was) at_m lt inv = record {
    on_within = λ d n e. ground (arith, inv.on_within d n);
    only = λ d ne. ground (arith, inv.only d, inv.only b);
  }

after-within :
    (threads : ℕ) (e : Event) (v : Worker)
    → 0 < threads
    → v.push_thread < threads
    → (after threads e v).push_thread < threads
unfolding after after_push
after-within threads silent v some_threads lt = lt
after-within threads (popped b) v some_threads lt = lt
after-within threads found_empty v some_threads lt = lt
after-within threads (pushed b) v some_threads lt = by_stage v.stage
  where
    by_stage : (q : Stage) → (after_push threads q v.push_thread v.pc).push_thread < threads
    by_stage q = ground (arith, lt, mod-lt (v.push_thread + 1) some_threads)

module _ (w threads : ℕ) (some_threads : 0 < threads) (allocated : Block → Bool) where
  pub record Ranged (s : Bench) : Type 0 where
    pub range : InRange threads allocated s.place
    pub within : (i : ℕ) → (s.worker i).push_thread < threads

  same-Ranged :
      (s : Bench) (i : ℕ) (v : Worker)
      → v.push_thread < threads
      → Ranged s
      → Ranged (record s { worker = update s.worker i v })
  same-Ranged s i v lt inv = record {
    range = inv.range;
    within = update_all (λ _ (v : Worker). v.push_thread < threads) i v (λ j _. inv.within j) lt;
  }

  Move-Ranged :
      {s t : Bench}
      → Move w threads s t
      → ((m : ℕ) → t.changes m + 1 < 2 ^ w)
      → InOrder allocated s
      → Ranged s
      → Ranged t
  Move-Ranged {s} (fills b m lt is own) bound order inv = same-Ranged s 0 _ lt inv
  Move-Ranged {s} (has_filled is nothing) bound order inv = same-Ranged s 0 _ (inv.within 0) inv
  Move-Ranged {s} (spawns i full is) bound order inv = same-Ranged s i _ (inv.within i) inv
  Move-Ranged (ends is) bound order inv = record { range = inv.range; within = inv.within }
  Move-Ranged {s} (leaves i is end) bound order inv = same-Ranged s i _ (inv.within i) inv
  Move-Ranged {s} (goes_in i is end) bound order inv = same-Ranged s i _ (inv.within i) inv
  Move-Ranged {s} (goes_out i is end) bound order inv = same-Ranged s i _ (inv.within i) inv
  Move-Ranged {s} (pops i is end) bound order inv = same-Ranged s i _ (inv.within i) inv
  Move-Ranged {s} (pushes i b is) bound order inv = same-Ranged s i _ (inv.within i) inv
  Move-Ranged {s} (accesses i m at_m) bound order inv =
      let fits = subst (λ n. n + 1 < 2 ^ w) (update_self s.changes m _) (bound m) in
      let (here, was) = here-Kept w threads s i m at_m (order.kept m) fits in
      let access =
        classify w (memory_of s m) (s.worker i).stage (s.worker i).pc (order.hands i).fits was in
      record {
        range = settle-InRange (s.worker i).push_thread access at_m (inv.within i) inv.range;
        within =
            update_all (λ _ (v : Worker). v.push_thread < threads) i _ (λ j _. inv.within j)
              (after-within threads _ _ some_threads (inv.within i));
      }

  prepared-Ranged : (link : Block → ℕ) → Ranged (prepared threads link allocated)
  unfolding prepared
  prepared-Ranged link = record {
    range = record {
      on_within = λ b m e. absurd (never_on (allocated b) m e);
      only = λ b ne. got (allocated b) ne;
    };
    within = λ i. some_threads;
  }
    where
      never_on : (a : Bool) (m : ℕ) → first_place a ≢ on m
      never_on true m e = cc
      never_on false m e = cc

      got : (a : Bool) → first_place a ≢ nowhere → a ≡ true
      got true ne = refl
      got false ne = absurd (ne refl)

  pub Reach-Ranged :
      {link : Block → ℕ} {s : Bench}
      → Reach w threads link allocated s
      → ((m : ℕ) → s.changes m + 1 < 2 ^ w)
      → Ranged s
  Reach-Ranged {link} start bound = prepared-Ranged link
  Reach-Ranged (later {s} r st) bound =
      let before : (m : ℕ) → s.changes m + 1 < 2 ^ w =
        λ m. omega (arith, bound m, Move-grows w threads st m) in
      Move-Ranged st bound (Reach-InOrder w threads r before) (Reach-Ranged r before)
