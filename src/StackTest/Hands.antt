-- ===== src/StackTest/Hands.antt =====
-- What the threads of src/tests/test_stack.cpp have in their hands, by where they stand.
use concurrentfw.Prelude.{ℕ, ◌≡◌, refl, ◌≢◌, ◌⊎◌, inl, inr, Bool, true, false, arith, ◌==◌, subst}
use concurrentfw.AbaWrapper.Dwcas.{dw_cas}
use concurrentfw.Stack.{
  Block, Memory, Pc, idle, push_start, push_cached, push_linked, pop_start, pop_cached, pop_read,
  rejected, Event, silent, pushed, popped, found_empty, run, pop_loaded, push_swapped, pop_swapped,
}
use concurrentfw.StackTest.{
  Place, held, on, Stage, filling, putting, filled, unborn, outer, inner, popping, holding, pushing,
  finished, Worker, settle_place, after, after_push,
}
use concurrentfw.StackTest.Events.{Before, silent_or_idle}

abbrev in_pop : Pc → Bool
in_pop pop_start = true
in_pop (pop_cached c) = true
in_pop (pop_read c below) = true
in_pop _ = false

abbrev pub in_push : Block → Pc → Bool
in_push b (push_start d) = d == b
in_push b (push_cached d c) = d == b
in_push b (push_linked d c) = d == b
in_push b rejected = true
in_push b _ = false

abbrev pub Fits : Stage → Pc → Type 0
Fits popping p = in_pop p ≡ true
Fits (putting b) p = in_push b p ≡ true
Fits (pushing b) p = in_push b p ≡ true
Fits _ p = p ≡ idle

-- The thread may have the block at this stage.
abbrev pub busy : Stage → Block → Bool
busy filling b = true
busy (putting d) b = true
busy (holding d) b = d == b
busy (pushing d) b = d == b
busy _ b = false

pub record Hands (place : Block → Place) (i : ℕ) (v : Worker) : Type 0 where
  pub fits : Fits v.stage v.pc
  pub has_it : (b : Block) → v.stage ≡ holding b → place b ≡ held i
  pub keeps : (b : Block) → place b ≡ held i → busy v.stage b ≡ true

-- The event ends a `pop`.
abbrev ends_pop : Event → Bool
ends_pop (popped b) = true
ends_pop found_empty = true
ends_pop _ = false

module _ (w : ℕ) (m : Memory) where
  pop-run :
      (p : Pc)
      → in_pop p ≡ true
      → (((run w m p).2 ≡ silent) × (in_pop (run w m p).1 ≡ true)) ⊎ (ends_pop (run w m p).2 ≡ true)
  unfolding run pop_loaded pop_swapped dw_cas
  pop-run pop_start e = ground arith
  pop-run (pop_cached c) e = inl (refl, refl)
  pop-run (pop_read c below) e = ground arith
  pop-run idle e = absurd (cc)
  pop-run rejected e = absurd (cc)
  pop-run (push_start b) e = absurd (cc)
  pop-run (push_cached b c) e = absurd (cc)
  pop-run (push_linked b c) e = absurd (cc)

  push-run :
      (b : Block) (p : Pc)
      → in_push b p ≡ true
      → (((run w m p).2 ≡ silent) × (in_push b (run w m p).1 ≡ true)) ⊎ ((run w m p).2 ≡ pushed b)
  unfolding run push_swapped dw_cas
  push-run b (push_start d) e = inl (refl, e)
  push-run b (push_cached d c) e = inl (refl, e)
  push-run b (push_linked d c) e = ground arith
  push-run b rejected e = inl (refl, refl)
  push-run b pop_start e = absurd (cc)
  push-run b (pop_cached c) e = absurd (cc)
  push-run b (pop_read c below) e = absurd (cc)
  push-run b idle e = absurd (cc)

-- The stage of a thread before an access, and what the access comes to.
pub data Access (place : Block → Place) (i m : ℕ) : Stage → Event → Pc → Type 0 where
  goes_on : {q : Stage} {p : Pc} → Fits q p → Access place i m q silent p
  has_popped : (b : Block) → place b ≡ on m → Access place i m popping (popped b) idle
  is_empty : Access place i m popping found_empty idle
  has_pushed : (b : Block) → place b ≡ held i → Access place i m (pushing b) (pushed b) idle
  has_put : (b : Block) → place b ≡ held i → Access place i m (putting b) (pushed b) idle

module _ {place : Block → Place} {i m : ℕ} where
  popping-Access :
      (e : Event) (p : Pc)
      → ((e ≡ silent) × (in_pop p ≡ true)) ⊎ (ends_pop e ≡ true)
      → (e ≡ silent) ⊎ (p ≡ idle)
      → Before i m place e
      → Access place i m popping e p
  popping-Access silent p (inl (_, fits)) _ _ = goes_on fits
  popping-Access silent p (inr is_end) _ _ = absurd (cc)
  popping-Access e p how (inl quiet) was = elim how [
    | inl (_, fits) ↦ rw quiet (goes_on fits)
    | inr is_end ↦ absurd (ground arith)
  ]
  popping-Access (popped b) p _ (inr out) was = rw out (has_popped b was)
  popping-Access found_empty p _ (inr out) was = rw out is_empty
  popping-Access (pushed b) p how (inr out) was = absurd (ground arith)

  pushing-Access :
      (b : Block) (q : Stage) (e : Event) (p : Pc)
      → (place b ≡ held i → Access place i m q (pushed b) idle)
      → ((e ≡ silent) × Fits q p) ⊎ (e ≡ pushed b)
      → (e ≡ silent) ⊎ (p ≡ idle)
      → Before i m place e
      → Access place i m q e p
  pushing-Access b q e p ends (inl (quiet, fits)) _ was = rw quiet (goes_on fits)
  pushing-Access b q e p ends (inr is) (inl quiet) was = absurd (cc)
  pushing-Access b q e p ends (inr is) (inr out) was =
      rw (is, out) (ends (subst (Before i m place) is was))

  module _ (w : ℕ) (memory : Memory) where
    idle-Access :
        (q : Stage) (p : Pc)
        → p ≡ idle
        → Fits q idle
        → Access place i m q (run w memory p).2 (run w memory p).1
    unfolding run
    idle-Access q p e fits = rw e (goes_on fits)

    -- What an access of a thread comes to, by its stage.
    pub classify :
        (q : Stage) (p : Pc)
        → Fits q p
        → Before i m place (run w memory p).2
        → Access place i m q (run w memory p).2 (run w memory p).1
    classify popping p fits was =
        popping-Access (run w memory p).2 (run w memory p).1 (pop-run w memory p fits)
          (silent_or_idle w memory p) was
    classify (pushing b) p fits was =
        pushing-Access b (pushing b) _ _ (has_pushed b) (push-run w memory b p fits)
          (silent_or_idle w memory p) was
    classify (putting b) p fits was =
        pushing-Access b (putting b) _ _ (has_put b) (push-run w memory b p fits)
          (silent_or_idle w memory p) was
    classify filling p fits was = idle-Access filling p fits refl
    classify filled p fits was = idle-Access filled p fits refl
    classify unborn p fits was = idle-Access unborn p fits refl
    classify outer p fits was = idle-Access outer p fits refl
    classify inner p fits was = idle-Access inner p fits refl
    classify (holding b) p fits was = idle-Access (holding b) p fits refl
    classify finished p fits was = idle-Access finished p fits refl

  pub after-Hands :
      (threads : ℕ) {q : Stage} {e : Event} {p : Pc} (push_thread : ℕ) (pc : Pc)
      → Access place i m q e p
      → Hands place i (record { stage = q; push_thread = push_thread; pc = pc })
      → Hands
          (settle_place i m e place)
          i
          (after threads e (record { stage = q; push_thread = push_thread; pc = p }))
  unfolding after after_push
  after-Hands threads t pc (goes_on fits) h = record {
    fits = fits;
    has_it = h.has_it;
    keeps = h.keeps;
  }
  after-Hands threads t pc (has_popped b was) h = record {
    fits = refl;
    has_it = λ d e. ground arith;
    keeps = λ d e. ground (arith, h.keeps d);
  }
  after-Hands threads t pc is_empty h = record {
    fits = refl;
    has_it = λ d e. absurd (cc);
    keeps = h.keeps;
  }
  after-Hands threads t pc (has_pushed b was) h = record {
    fits = refl;
    has_it = λ d e. absurd (cc);
    keeps = λ d e. ground (arith, h.keeps d);
  }
  after-Hands threads t pc (has_put b was) h = record {
    fits = refl;
    has_it = λ d e. absurd (cc);
    keeps = λ d e. refl;
  }

  pub others-Hands :
      {q : Stage} {e : Event} {p : Pc} (j : ℕ) (v : Worker)
      → i ≢ j
      → Access place i m q e p
      → Hands place j v
      → Hands (settle_place i m e place) j v
  others-Hands j v ne (goes_on fits) h = h
  others-Hands j v ne is_empty h = h
  others-Hands j v ne (has_popped b was) h = record {
    fits = h.fits;
    has_it = λ d e. ground (arith, h.has_it d);
    keeps = λ d e. ground (arith, h.keeps d);
  }
  others-Hands j v ne (has_pushed b was) h = record {
    fits = h.fits;
    has_it = λ d e. ground (arith, h.has_it d);
    keeps = λ d e. ground (arith, h.keeps d);
  }
  others-Hands j v ne (has_put b was) h = record {
    fits = h.fits;
    has_it = λ d e. ground (arith, h.has_it d);
    keeps = λ d e. ground (arith, h.keeps d);
  }
