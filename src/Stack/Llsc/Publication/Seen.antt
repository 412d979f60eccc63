-- ===== src/Stack/Llsc/Publication/Seen.antt =====
-- A thread that pops a block sees what was published with it, on LLSC (src/stack.cpp).
use concurrentfw.Prelude.{
  ℕ, ◌≡◌, Bool, true, false, Option, update, update_all, update_self, arith, Bool-cases, inl, inr,
}
use concurrentfw.Atomic.Views.{Includes, Thread}
use concurrentfw.Arm.Orders.{Version, atomic_exclusive_store_release}
use concurrentfw.Arm.Orders.Handover.{store_knows}
use concurrentfw.Stack.{Block, Event, popped}
use concurrentfw.AbaWrapper.Publication.{Views, at_start, learns}
use concurrentfw.Stack.Llsc.{
  Memory, Pc, idle, rejected, push_start, push_cached, push_linked, pop_start, pop_cached, pop_read,
  run,
}
use concurrentfw.Stack.Llsc.System
use concurrentfw.Stack.Llsc.System.{
  access, call_push, call_pop, recover, use_block, hand_over, clear,
}
use concurrentfw.Stack.Llsc.Publication.{processor, observe, effect, Reach, start, moves, learned}
use concurrentfw.Stack.Llsc.Publication.Invariant.{IsSeen, run-IsSeen}

learns-IsSeen :
    (reserved : ℕ → Bool) (i e : ℕ) (v : Views) → IsSeen reserved v → IsSeen reserved (learns i e v)
learns-IsSeen reserved i e v inv = record {
  carries = inv.carries;
  watching =
      update_all
        (λ j (t : Thread). reserved j ≡ true → (b : Block) → Includes t.current (v.published b)) i _
        (λ j _. inv.watching j) (λ r b x h. ground (arith, inv.watching i r b x h));
}

clear-IsSeen :
    (reserved : ℕ → Bool) (i : ℕ) (v : Views)
    → IsSeen reserved v
    → IsSeen (update reserved i false) v
clear-IsSeen reserved i v inv = record {
  carries = inv.carries;
  watching =
      update_all (λ j r. r ≡ true → (b : Block) → Includes (v.thread j).current (v.published b)) i
        false (λ j _. inv.watching j) (λ no. cc);
}

module _ (version : Version) where
  effect-IsSeen :
      {s t : System.System} {e : Event} (st : System.Step s e t) (v : Views)
      → IsSeen s.memory.reserved v
      → IsSeen t.memory.reserved (effect version st v)
  unfolding effect
  effect-IsSeen {s} (access i) v inv = run-IsSeen version s.memory inv i (s.pc i)
  effect-IsSeen {s} (clear i) v inv = clear-IsSeen s.memory.reserved i v inv
  effect-IsSeen (call_push i b e o) v inv = inv
  effect-IsSeen (call_pop i e) v inv = inv
  effect-IsSeen (recover i e) v inv = inv
  effect-IsSeen (use_block i b word e o) v inv = inv
  effect-IsSeen (hand_over i j b e o) v inv = inv

  -- A pop takes effect with an exclusive store.
  popped-sees :
      (i : ℕ) (m : Memory) (p : Pc) (v : Views) (b : Block)
      → (run i m p).2 ≡ popped b
      → IsSeen m.reserved v
      → Includes ((observe version i m p v).thread i).current (v.published b)
  unfolding run observe
  popped-sees i m (pop_read cache below) v b e inv = elim (Bool-cases (m.reserved i)) [
    | inl set ↦ λ x h.
        let p' = (atomic_exclusive_store_release version i below (processor i m v)).0 in
        rw (update_self v.thread i p'.thread)
          (store_knows version i below (processor i m v) x (inv.watching i set b x h))
    | inr not_set ↦ absurd (ground (arith, not_set, e))
  ]
  popped-sees i m (push_linked block cache) v b e inv = absurd (ground (arith, e))
  popped-sees i m pop_start v b e inv = absurd (ground (arith, e))
  popped-sees i m idle v b e inv = cc
  popped-sees i m rejected v b e inv = cc
  popped-sees i m (push_start block) v b e inv = cc
  popped-sees i m (push_cached block cache) v b e inv = cc
  popped-sees i m (pop_cached cache) v b e inv = cc

  module _ {link : Block → ℕ} {owner : Block → Option ℕ} where
    Reach-IsSeen :
        {s : System.System} {v : Views} → Reach version link owner s v → IsSeen s.memory.reserved v
    unfolding at_start
    Reach-IsSeen start = record { carries = λ b e h. cc; watching = λ j r b e h. cc }
    Reach-IsSeen (moves r st) = effect-IsSeen st _ (Reach-IsSeen r)
    Reach-IsSeen {s} (learned {v = v} r i e) =
        learns-IsSeen s.memory.reserved i e v (Reach-IsSeen r)

    -- On LLSC, with the code for ARMv7 and that for ARMv8: in every state that any number of
    -- threads reach, an access of a thread that pops a block leaves the thread with all that the
    -- thread which pushed the block last knew when it pushed it.
    pub llsc_popper_sees :
        {s : System.System} {v : Views}
        → Reach version link owner s v
        → (i : ℕ) (b : Block) → (run i s.memory (s.pc i)).2 ≡ popped b
        → Includes ((observe version i s.memory (s.pc i) v).thread i).current (v.published b)
    llsc_popper_sees {s} {v} r i b pops = popped-sees i s.memory (s.pc i) v b pops (Reach-IsSeen r)
