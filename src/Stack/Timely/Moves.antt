-- ===== src/Stack/Timely/Moves.antt =====
-- Each step in time (src/stack.cpp) is one with a counter that never wraps.
use concurrentfw.Prelude.{
  ℕ, ◌+◌, ◌^◌, ◌<◌, ◌≡◌, refl, sym, subst, fun_ext, inl, inr, update, update_all, update_both,
  ℕ_discrete, ite, Bool-cases, ◌==◌,
}
use concurrentfw.Stack.{
  Block, null, Memory, Pc, idle, pop_start, rejected, Event, silent, push_entry, run,
}
use concurrentfw.Stack.System.{
  System, init, settle, tally, call_push, call_pop, recover, use_block, hand_over, access,
}
use concurrentfw.Stack.System
use concurrentfw.Stack.Refinement.{Step-grows}
use concurrentfw.Stack.Timely.{IsTimely, looked, look}
use concurrentfw.Stack.Timely.Lift.{
  lift, lift_memory, lift_pc, lift_pc-update, Counts, Counts-later, AllCount,
}
use concurrentfw.Stack.Timely.Access.{run-lift, run-Counts}

-- A move that does not look at the stack.
lift_pc-move :
    (seen : ℕ → ℕ) (pc : ℕ → Pc) (i : ℕ) (p p' : Pc)
    → ((l : ℕ) → lift_pc l p ≡ p')
    → update (λ j. lift_pc (seen j) (pc j)) i p' ≡ (λ j. lift_pc (seen j) (update pc i p j))
lift_pc-move seen pc i p p' same = fun_ext (λ j.
    elim (ℕ_discrete i j)
      as (λ d. ite d p' (lift_pc (seen j) (pc j)) ≡ lift_pc (seen j) (ite d p (pc j))) [
        | yes e ↦ sym (same (seen j))
        | no ne ↦ refl
      ])

push_entry-lift : (l : ℕ) (b : Block) → lift_pc l (push_entry b) ≡ push_entry b
unfolding lift_pc push_entry
push_entry-lift l b = elim (Bool-cases (b == null)) [ inl z ↦ rw z refl | inr n ↦ rw n refl ]

push_entry-Counts : (w n l : ℕ) (b : Block) → Counts w n l (push_entry b)
unfolding push_entry
push_entry-Counts w n l b = elim (Bool-cases (b == null)) [ inl z ↦ rw z tt | inr n ↦ rw n tt ]

module _ (u : ℕ) (s : System) (seen : ℕ → ℕ) where
  idle-lift : (i : ℕ) (p : Pc) → lift_pc (seen i) p ≡ p → s.pc i ≡ p → (lift s seen).pc i ≡ p
  unfolding lift
  idle-lift i p same e = rw e same

  move-Step :
      (i : ℕ) (p : Pc)
      → ((l : ℕ) → lift_pc l p ≡ p)
      → System.Step u
          (lift s seen)
          silent
          (record (lift s seen) { pc = update (lift s seen).pc i p })
      → System.Step u (lift s seen) silent (lift (record s { pc = update s.pc i p }) seen)
  unfolding lift
  move-Step i p same st =
      subst (λ pc. System.Step u (lift s seen) silent (record (lift s seen) { pc = pc }))
        (lift_pc-move seen s.pc i p p same) st

  access-Step :
      (w i : ℕ)
      → run u (lift_memory s.memory s.changes) (lift_pc (seen i) (s.pc i)) ≡ (
        lift_memory (run w s.memory (s.pc i)).0 (tally (run w s.memory (s.pc i)).2 s.changes),
        lift_pc (look (s.pc i) s.changes (seen i)) (run w s.memory (s.pc i)).1,
        (run w s.memory (s.pc i)).2,
      )
      → System.Step u (lift s seen) (run w s.memory (s.pc i)).2 (
          lift
            (record {
              memory = (run w s.memory (s.pc i)).0;
              pc = update s.pc i (run w s.memory (s.pc i)).1;
              owner = settle i (run w s.memory (s.pc i)).2 s.owner;
              changes = tally (run w s.memory (s.pc i)).2 s.changes;
            })
            (update seen i (look (s.pc i) s.changes (seen i))))
  unfolding lift
  access-Step w i does =
      let done =
        subst
          (λ (r : Memory × Pc × Event). System.Step u (lift s seen) r.2 (record {
            memory = r.0;
            pc = update (lift s seen).pc i r.1;
            owner = settle i r.2 s.owner;
            changes = tally r.2 s.changes;
          }))
          does (access i) in
      let moved =
        lift_pc-update seen s.pc i (look (s.pc i) s.changes (seen i)) (run w s.memory (s.pc i)).1 in
      subst
        (λ pc. System.Step u (lift s seen) (run w s.memory (s.pc i)).2 (record {
          memory =
              lift_memory (run w s.memory (s.pc i)).0 (tally (run w s.memory (s.pc i)).2 s.changes);
          pc = pc;
          owner = settle i (run w s.memory (s.pc i)).2 s.owner;
          changes = tally (run w s.memory (s.pc i)).2 s.changes;
        }))
        moved done

module _ (w u : ℕ) where
  pub Step-lift :
      {s t : System} {e : Event} {seen : ℕ → ℕ} (st : System.Step w s e t)
      → IsTimely w seen st
      → AllCount w s seen
      → t.changes + 1 < 2 ^ u
      → System.Step u (lift s seen) e (lift t (looked w seen st))
  unfolding looked lift lift_memory
  Step-lift {s} {seen} (call_push i b e own) timely counts bound =
      move-Step u s seen i (push_entry b) (λ l. push_entry-lift l b)
        (call_push i b (idle-lift u s seen i idle refl e) own)
  Step-lift {s} {seen} (call_pop i e) timely counts bound =
      move-Step u s seen i pop_start (λ l. refl) (call_pop i (idle-lift u s seen i idle refl e))
  Step-lift {s} {seen} (recover i e) timely counts bound =
      move-Step u s seen i idle (λ l. refl) (recover i (idle-lift u s seen i rejected refl e))
  Step-lift {s} {seen} (use_block i b word e own) timely counts bound =
      use_block i b word (idle-lift u s seen i idle refl e) own
  Step-lift {s} {seen} (hand_over i j b e own) timely counts bound =
      hand_over i j b (idle-lift u s seen i idle refl e) own
  Step-lift {s} {seen} (access i) timely counts bound =
      access-Step u s seen w i (
        run-lift w u s.memory s.changes (seen i) counts.now (s.pc i) (counts.cached i) timely bound)

  move-AllCount :
      (s : System) (seen : ℕ → ℕ) (i : ℕ) (p : Pc)
      → AllCount w s seen
      → Counts w s.changes (seen i) p
      → AllCount w (record s { pc = update s.pc i p }) seen
  move-AllCount s seen i p counts own = record {
    now = counts.now;
    cached = update_all (λ j p. Counts w s.changes (seen j) p) i p (λ j _. counts.cached j) own;
  }

  pub Step-AllCount :
      {s t : System} {e : Event} {seen : ℕ → ℕ} (st : System.Step w s e t)
      → IsTimely w seen st
      → AllCount w s seen
      → AllCount w t (looked w seen st)
  unfolding looked
  Step-AllCount {s} {seen} (call_push i b e own) timely counts =
      move-AllCount s seen i _ counts (push_entry-Counts w s.changes (seen i) b)
  Step-AllCount {s} {seen} (call_pop i e) timely counts = move-AllCount s seen i pop_start counts tt
  Step-AllCount {s} {seen} (recover i e) timely counts = move-AllCount s seen i idle counts tt
  Step-AllCount (use_block i b word e own) timely counts = record {
    now = counts.now;
    cached = counts.cached;
  }
  Step-AllCount (hand_over i j b e own) timely counts = record {
    now = counts.now;
    cached = counts.cached;
  }
  Step-AllCount {s} {seen} (access i) timely counts =
      let (now, own) =
        run-Counts w u s.memory s.changes (seen i) counts.now (s.pc i) (counts.cached i) timely in
      record {
        now = now;
        cached =
            update_both (λ j l p. Counts w (tally (run w s.memory (s.pc i)).2 s.changes) l p) i _ _
              (λ j _.
                Counts-later w s.changes _ (seen j) (s.pc j) (Step-grows w {s = s} (access i))
                  (counts.cached j))
              own;
      }
