-- ===== src/StackTest/Conserved.antt =====
-- Where the blocks of src/tests/test_stack.cpp are when its threads have left their loops.
use concurrentfw.Prelude.{
  ℕ, zero, suc, ◌+◌, ◌^◌, ◌≤◌, ◌<◌, ◌≡◌, refl, sym, ap, ◌∙◌, ◌≢◌, ◌⊎◌, inl, inr, Bool, true, false,
  List, [], has, update_self, update_ne, arith, ◌==◌, ℕ_discrete, dec_lt, ite,
}
use concurrentfw.Stack.{Block, idle, Event, run, push_entry}
use concurrentfw.Stack.Chain.{Chain, nil}
use concurrentfw.Stack.System.{tally}
use concurrentfw.Stack.Invariant.{Local}
use concurrentfw.Stack.Ownership.{is_free}
use concurrentfw.StackTest.{
  Place, first_place, nowhere, held, on, filling, filled, unborn, outer, inner, finished, Bench,
  memory_of, prepared, first_stage, Move, fills, has_filled, spawns, ends, leaves, goes_in,
  goes_out, pops, pushes, accesses, Reach, start, later,
}
use concurrentfw.StackTest.Views.{owners, pcs, owner_of, pc_for-idle}
use concurrentfw.StackTest.Hands.{Hands, in_push}
use concurrentfw.StackTest.Invariant.{
  InOrder, worker-InOrder, stage-InOrder, at_stage, empty_handed, accesses-InOrder,
  Everywhere-push_entry,
}

push_entry-in_push : (b : Block) → in_push b (push_entry b) ≡ true
unfolding push_entry
push_entry-in_push b = ground arith

grows : (e : Event) (n : ℕ) → n ≤ tally e n
grows e n = ground arith

first_place-is_free : (m : ℕ) (got : Bool) → is_free (owner_of m (first_place got)) ≡ false
first_place-is_free m true = refl
first_place-is_free m false = refl

first_place-others : (i : ℕ) (got : Bool) → first_place got ≢ held (suc i)
first_place-others i true e = absurd (ground arith)
first_place-others i false e = cc

first_Hands :
    (threads : ℕ) (allocated : Block → Bool) (i : ℕ)
    → Hands
        (λ b. first_place (allocated b))
        i
        (record { stage = first_stage threads i; push_thread = 0; pc = idle })
first_Hands threads allocated zero = record {
  fits = refl;
  has_it = λ b e. absurd (cc);
  keeps = λ b e. refl;
}
first_Hands threads allocated (suc i) =
    elim (dec_lt i threads)
      as (λ d.
        Hands (λ b. first_place (allocated b)) (suc i)
          (record { stage = ite d unborn finished; push_thread = 0; pc = idle })) [
            | yes _ ↦ record {
              fits = refl;
              has_it = λ b e. absurd (cc);
              keeps = λ b e. absurd (first_place-others i (allocated b) e);
            }
            | no _ ↦ record {
              fits = refl;
              has_it = λ b e. absurd (cc);
              keeps = λ b e. absurd (first_place-others i (allocated b) e);
            }
          ]

module _ (w threads : ℕ) where
  -- No step takes back a push or a pop.
  pub Move-grows : {s t : Bench} → Move w threads s t → (m : ℕ) → s.changes m ≤ t.changes m
  Move-grows {s} (accesses i m at_m) n = elim (ℕ_discrete m n) [
    | yes e ↦
        rw
          (
            ← e,
            update_self s.changes m (tally (run w (memory_of s m) (s.worker i).pc).2 (s.changes m)),
          )
          (grows _ (s.changes m))
    | no ne ↦ rw (update_ne s.changes m n _ ne) (omega arith)
  ]
  Move-grows (fills b m in_range is own) n = omega arith
  Move-grows (has_filled is nothing) n = omega arith
  Move-grows (spawns i full is) n = omega arith
  Move-grows (ends is) n = omega arith
  Move-grows (leaves i is end) n = omega arith
  Move-grows (goes_in i is end) n = omega arith
  Move-grows (goes_out i is end) n = omega arith
  Move-grows (pops i is end) n = omega arith
  Move-grows (pushes i b is) n = omega arith

  module _ {allocated : Block → Bool} where
    Move-InOrder :
        {s t : Bench}
        → Move w threads s t
        → ((m : ℕ) → t.changes m + 1 < 2 ^ w)
        → InOrder allocated s
        → InOrder allocated t
    Move-InOrder {s} (fills b m in_range is own) bound inv =
        worker-InOrder s inv 0 _ (Everywhere-push_entry s 0 b own)
          (record { fits = push_entry-in_push b; has_it = λ d e. absurd (cc); keeps = λ d e. refl })
    Move-InOrder {s} (has_filled is nothing) bound inv =
        stage-InOrder s inv 0 filled (at_stage s inv 0 filling is) refl (λ b e. absurd (cc))
          (λ b e. absurd (nothing b e))
    Move-InOrder {s} (spawns i full is) bound inv =
        stage-InOrder s inv i outer (at_stage s inv i unborn is) refl (λ b e. absurd (cc))
          (λ b e. absurd (empty_handed s inv i unborn is (λ b. refl) b e))
    Move-InOrder (ends is) bound inv = record {
      kept = λ m. record {
        blocks = (inv.kept m).blocks;
        holds = (inv.kept m).holds;
        free = (inv.kept m).free;
      };
      hands = inv.hands;
      in_play = inv.in_play;
    }
    Move-InOrder {s} (leaves i is end) bound inv =
        stage-InOrder s inv i finished (at_stage s inv i outer is) refl (λ b e. absurd (cc))
          (λ b e. absurd (empty_handed s inv i outer is (λ b. refl) b e))
    Move-InOrder {s} (goes_in i is end) bound inv =
        stage-InOrder s inv i inner (at_stage s inv i outer is) refl (λ b e. absurd (cc))
          (λ b e. absurd (empty_handed s inv i outer is (λ b. refl) b e))
    Move-InOrder {s} (goes_out i is end) bound inv =
        stage-InOrder s inv i outer (at_stage s inv i inner is) refl (λ b e. absurd (cc))
          (λ b e. absurd (empty_handed s inv i inner is (λ b. refl) b e))
    Move-InOrder {s} (pops i is end) bound inv =
        worker-InOrder s inv i _ (λ m. tt)
          (record {
            fits = refl;
            has_it = λ b e. absurd (cc);
            keeps = λ b e. absurd (empty_handed s inv i inner is (λ b. refl) b e);
          })
    Move-InOrder {s} (pushes i b is) bound inv =
        worker-InOrder s inv i _ (Everywhere-push_entry s i b ((inv.hands i).has_it b is)) (record {
          fits = push_entry-in_push b;
          has_it = λ d e. absurd (cc);
          keeps = λ d e. ground (arith, (inv.hands i).keeps d e);
        })
    Move-InOrder {s} (accesses i m at_m) bound inv =
        accesses-InOrder s inv w threads i m at_m (bound m)

    prepared-InOrder : (link : Block → ℕ) → InOrder allocated (prepared threads link allocated)
    unfolding prepared
    prepared-InOrder link = record {
      kept = λ m. record {
        blocks = [];
        holds = record {
          counted = omega arith;
          chain = nil refl;
          unowned = λ b h. absurd (cc);
          local = first_local link m;
        };
        free = λ b. sym (first_place-is_free m (allocated b));
      };
      hands = first_Hands threads allocated;
      in_play = λ b got. rw got (λ e. cc);
    }
      where
        first_local :
            (link : Block → ℕ) (m i : ℕ)
            → Local link
                ((prepared threads link allocated).stack m)
                (owners m (prepared threads link allocated).place)
                i
                (pcs m (prepared threads link allocated).worker i)
        first_local link m zero = tt
        first_local link m (suc i) =
            rw (pc_for-idle m i ((prepared threads link allocated).worker i) refl) tt

    pub Reach-InOrder :
        {link : Block → ℕ} {s : Bench}
        → Reach w threads link allocated s
        → ((m : ℕ) → s.changes m + 1 < 2 ^ w)
        → InOrder allocated s
    Reach-InOrder {link} start bound = prepared-InOrder link
    Reach-InOrder (later r st) bound =
        Move-InOrder st bound (Reach-InOrder r (λ m. omega (arith, bound m, Move-grows st m)))

    -- Once the threads have nothing in their hands, an allocated block is on a stack.
    pub on_stack :
        (s : Bench)
        → InOrder allocated s
        → ((i : ℕ) → ((s.worker i).stage ≡ finished) ⊎ ((s.worker i).stage ≡ filled))
        → (b : Block) → allocated b ≡ true
        → (m : ℕ) × ((n : ℕ) → is_free (owner_of n (s.place b)) ≡ (m == n)) × (s.place b ≡ on m)
    on_stack s inv done b got = settled (s.place b) refl
      where
        settled :
            (p : Place)
            → s.place b ≡ p
            → (m : ℕ) × ((n : ℕ) → is_free (owner_of n (s.place b)) ≡ (m == n)) × (s.place b ≡ on m)
        settled nowhere is = absurd (inv.in_play b got is)
        settled (on m) is = (m, λ n. ap (λ p. is_free (owner_of n p)) is ∙ ground arith, is)
        settled (held i) is = absurd (elim (done i) [
          | inl e ↦ empty_handed s inv i finished e (λ b. refl) b is
          | inr e ↦ empty_handed s inv i filled e (λ b. refl) b is
        ])

    -- In every reachable state in which no stack's counter has wrapped round, every thread has left its
    -- loop, and the filling is over: each allocated block is on one stack, in its chain of links, and on
    -- no other.
    pub nothing_lost :
        {link : Block → ℕ} {s : Bench}
        → Reach w threads link allocated s
        → ((m : ℕ) → s.changes m + 1 < 2 ^ w)
        → ((i : ℕ) → ((s.worker i).stage ≡ finished) ⊎ ((s.worker i).stage ≡ filled))
        → (b : Block) → allocated b ≡ true
        → (m : ℕ) × ((n : ℕ)
            → (xs : List Block) × Chain s.link (s.stack n).value xs × (has b xs ≡ (m == n)))
    nothing_lost {s} r bound done b got =
        let inv = Reach-InOrder r bound in
        let (m, free_on, there) = on_stack s inv done b got in
        (m, λ n. ((inv.kept n).blocks, (inv.kept n).holds.chain, (inv.kept n).free b ∙ free_on n))
