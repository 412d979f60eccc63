-- ===== src/Stack/Publication/Seen.antt =====
-- A thread that pops a block sees what was published with it (src/stack.cpp).
use concurrentfw.Prelude.{ℕ, ◌≡◌, Option, Bool-cases, inl, inr}
use concurrentfw.Atomic.Views.{Includes, carried}
use concurrentfw.AbaWrapper.{Content, same}
use concurrentfw.AbaWrapper.Publication.{
  Views, at_start, Carries, acquired, swaps-Carries, publishing-Carries,
}
use concurrentfw.Stack.{
  Block, Memory, Pc, idle, push_start, push_cached, push_linked, pop_start, pop_cached, pop_read,
  rejected, Event, popped, run,
}
use concurrentfw.Stack.System
use concurrentfw.Stack.System.{access, call_push, call_pop, recover, use_block, hand_over}
use concurrentfw.Stack.Publication.{observe, effect, Reach, start, moves, learned}

observe-Carries :
    (i : ℕ) (stack : Content) (p : Pc) (v : Views) → Carries v → Carries (observe i stack p v)
unfolding observe
observe-Carries i stack (push_linked b cache) v c = elim (Bool-cases (same stack cache)) [
  | inl hit ↦ rw hit (publishing-Carries i b v c)
  | inr miss ↦ rw miss c
]
observe-Carries i stack (pop_read cache below) v c = elim (Bool-cases (same stack cache)) [
  | inl hit ↦ rw hit (swaps-Carries i v c)
  | inr miss ↦ rw miss c
]
observe-Carries i stack (push_start b) v c = c
observe-Carries i stack pop_start v c = c
observe-Carries i stack idle v c = c
observe-Carries i stack rejected v c = c
observe-Carries i stack (push_cached b cache) v c = c
observe-Carries i stack (pop_cached cache) v c = c

module _ (w : ℕ) where
  effect-Carries :
      {s t : System.System} {e : Event} (st : System.Step w s e t) (v : Views)
      → Carries v
      → Carries (effect w st v)
  unfolding effect
  effect-Carries {s} (access i) v c = observe-Carries i s.memory.stack (s.pc i) v c
  effect-Carries (call_push i b e o) v c = c
  effect-Carries (call_pop i e) v c = c
  effect-Carries (recover i e) v c = c
  effect-Carries (use_block i b word e o) v c = c
  effect-Carries (hand_over i j b e o) v c = c

  -- An access that takes a block from the stack acquires.
  popped-acquires :
      (i : ℕ) (m : Memory) (p : Pc) (v : Views) (b : Block)
      → (run w m p).2 ≡ popped b
      → Includes ((observe i m.stack p v).thread i).current (carried v.message)
  unfolding run observe
  popped-acquires i m (pop_read cache below) v b e = elim (Bool-cases (same m.stack cache)) [
    | inl hit ↦ rw hit (acquired i v.thread v.message)
    | inr miss ↦ rw miss (acquired i v.thread v.message)
  ]
  popped-acquires i m (push_linked block cache) v b e = elim (Bool-cases (same m.stack cache)) [
    | inl hit ↦ rw hit (acquired i v.thread v.message)
    | inr miss ↦ rw miss (acquired i v.thread v.message)
  ]
  popped-acquires i m idle v b e = cc
  popped-acquires i m rejected v b e = cc
  popped-acquires i m (push_start block) v b e = cc
  popped-acquires i m pop_start v b e = acquired i v.thread v.message
  popped-acquires i m (push_cached block cache) v b e = cc
  popped-acquires i m (pop_cached cache) v b e = cc

  module _ {link : Block → ℕ} {owner : Block → Option ℕ} where
    Reach-Carries : {s : System.System} {v : Views} → Reach w link owner s v → Carries v
    unfolding at_start
    Reach-Carries start = λ b e h. cc
    Reach-Carries (moves r st) = effect-Carries st _ (Reach-Carries r)
    Reach-Carries (learned r i e) = Reach-Carries r

    -- In every state that any number of threads reach, whatever else they learn meanwhile: an access
    -- of a thread that pops a block leaves the thread with all that the thread which pushed the block
    -- last knew when it pushed it.
    pub popper_sees :
        {s : System.System} {v : Views}
        → Reach w link owner s v
        → (i : ℕ) (b : Block) → (run w s.memory (s.pc i)).2 ≡ popped b
        → Includes ((observe i s.memory.stack (s.pc i) v).thread i).current (v.published b)
    popper_sees {s} {v} r i b pops e h =
        popped-acquires i s.memory (s.pc i) v b pops e (Reach-Carries r b e h)
