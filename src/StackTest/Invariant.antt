-- ===== src/StackTest/Invariant.antt =====
-- The invariant of src/tests/test_stack.cpp: the order of each stack, and what each thread has in its hands.
use concurrentfw.Prelude.{
  ℕ, suc, ◌+◌, ◌^◌, ◌<◌, ◌≡◌, refl, sym, ◌≢◌, inl, inr, Bool, true, false, update, update_self,
  arith, ◌==◌, ℕ_discrete, subst, Bool-cases, update_all,
}
use concurrentfw.Stack.{Block, null, Pc, idle, Event, run, push_entry}
use concurrentfw.Stack.Invariant.{Local}
use concurrentfw.Stack.Invariant.Moves.{quiet-Holds}
use concurrentfw.StackTest.{
  nowhere, held, Stage, holding, Worker, Bench, settle_place, stack_of, memory_of, accessed,
  to_stage,
}
use concurrentfw.StackTest.Views.{owners, pc_for, Kept, parts-Kept, pcs-update}
use concurrentfw.StackTest.Elsewhere.{here-Kept, away-Kept}
use concurrentfw.StackTest.Hands.{Hands, Fits, busy, classify, after-Hands, others-Hands}

-- What is known of a thread for every stack.
abbrev pub Everywhere : Bench → ℕ → Pc → Type 0
Everywhere s i p = (m : ℕ) → Local s.link (s.stack m) (owners m s.place) (suc i) p

pub record InOrder (allocated : Block → Bool) (s : Bench) : Type 0 where
  pub kept : (m : ℕ) → Kept s m
  pub hands : (i : ℕ) → Hands s.place i (s.worker i)
  pub in_play : (b : Block) → allocated b ≡ true → s.place b ≢ nowhere

Everywhere-idle : (s : Bench) (i : ℕ) (p : Pc) → p ≡ idle → Everywhere s i p
Everywhere-idle s i p e m = subst (Local s.link (s.stack m) (owners m s.place) (suc i)) (sym e) tt

pub Everywhere-push_entry :
    (s : Bench) (i : ℕ) (b : Block) → s.place b ≡ held i → Everywhere s i (push_entry b)
unfolding push_entry
Everywhere-push_entry s i b own m = elim (Bool-cases (b == null)) [
  | inl z ↦ rw z tt
  | inr n ↦ rw n (ground arith, ground (arith, own))
]

Local-pc_for :
    (s : Bench) (i : ℕ) (v : Worker)
    → Everywhere s i v.pc
    → (m : ℕ) → Local s.link (s.stack m) (owners m s.place) (suc i) (pc_for m i v)
Local-pc_for s i v l m = elim (Bool-cases (stack_of i v == m)) [
  | inl here ↦ rw here (l m)
  | inr away ↦ rw away tt
]

module _ {allocated : Block → Bool} (s : Bench) (inv : InOrder allocated s) where
  open inv use {kept, hands, in_play}

  -- Thread `i` goes on outside the stacks.
  pub worker-InOrder :
      (i : ℕ) (v : Worker)
      → Everywhere s i v.pc
      → Hands s.place i v
      → InOrder allocated (record s { worker = update s.worker i v })
  worker-InOrder i v l h = record {
    kept = λ m.
        parts-Kept m (record s { worker = update s.worker i v })
          (quiet-Holds (kept m).holds (suc i) (pc_for m i v) (Local-pc_for s i v l m)) refl refl
          (pcs-update m s.worker i v) refl (kept m).free;
    hands = update_all (Hands s.place) i v (λ j _. hands j) h;
    in_play = in_play;
  }

  pub stage-InOrder :
      (i : ℕ) (stage : Stage)
      → (s.worker i).pc ≡ idle
      → Fits stage idle
      → ((b : Block) → stage ≢ holding b)
      → ((b : Block) → s.place b ≡ held i → busy stage b ≡ true)
      → InOrder allocated (to_stage s i stage)
  stage-InOrder i stage out fits not_holding keeps =
      worker-InOrder i (record (s.worker i) { stage = stage })
        (Everywhere-idle s i (s.worker i).pc out)
        (record {
          fits = subst (Fits stage) (sym out) fits;
          has_it = λ b e. absurd (not_holding b e);
          keeps = keeps;
        })

  -- What the thread knows at its stage.
  pub at_stage : (i : ℕ) (stage : Stage) → (s.worker i).stage ≡ stage → Fits stage (s.worker i).pc
  at_stage i stage is = subst (λ q. Fits q (s.worker i).pc) is (hands i).fits

  pub empty_handed :
      (i : ℕ) (stage : Stage)
      → (s.worker i).stage ≡ stage
      → ((b : Block) → busy stage b ≡ false)
      → (b : Block) → s.place b ≢ held i
  empty_handed i stage is free b e = ground (arith, (hands i).keeps b, free b)

  settled-in_play :
      (i m : ℕ) (e : Event) (b : Block)
      → s.place b ≢ nowhere
      → settle_place i m e s.place b ≢ nowhere
  settled-in_play i m e b ne = ground arith

  pub accesses-InOrder :
      (w threads i m : ℕ) (at_m : stack_of i (s.worker i) ≡ m)
      → (accessed w threads s i m (run w (memory_of s m) (s.worker i).pc)).changes m + 1 < 2 ^ w
      → InOrder allocated (accessed w threads s i m (run w (memory_of s m) (s.worker i).pc))
  accesses-InOrder w threads i m at_m bound =
      let t = accessed w threads s i m (run w (memory_of s m) (s.worker i).pc) in
      let (here, was) =
        here-Kept w threads s i m at_m (kept m)
          (subst (λ n. n + 1 < 2 ^ w) (update_self s.changes m _) bound) in
      let access =
        classify w (memory_of s m) (s.worker i).stage (s.worker i).pc (hands i).fits was in
      record {
        kept = λ n. elim (ℕ_discrete m n) [
          | yes e ↦ subst (Kept t) e here
          | no ne ↦ away-Kept w threads s i m at_m (kept m) n ne (kept n) was
        ];
        hands =
            update_all (Hands t.place) i _ (λ j ne. others-Hands j (s.worker j) ne access (hands j))
              (after-Hands threads (s.worker i).push_thread (s.worker i).pc access (hands i));
        in_play = λ b got. settled-in_play i m _ b (in_play b got);
      }
