-- ===== src/Stack/Publication.antt =====
-- The memory orders of the class `Stack` (src/stack.cpp) on a platform with DWCAS: what a thread that
-- pops a block sees of what the thread that pushed it did before.
pub mod Seen
mod Examples
use concurrentfw.Prelude.{
  ℕ, ◌≡◌, refl, Bool, true, false, Option, [], ◌∷◌, ◌==◌, ◌||◌, if◌then◌else◌, update, arith,
  Bool-cases, inl, inr,
}
use concurrentfw.Atomic.Order.{MemoryOrder, acquire, seq_cst}
use concurrentfw.Atomic.Views.{
  View, nothing, Includes, Thread, fresh, Message, carried, load, modify, head,
}
use concurrentfw.AbaWrapper.{Content, same}
use concurrentfw.AbaWrapper.Publication.{
  Views, at_start, dw_load_order, dw_cas_order, reads, swaps, publishes, learns,
}
use concurrentfw.Stack.{
  Block, Memory, Pc, idle, push_start, push_cached, push_linked, pop_start, pop_cached, pop_read,
  rejected, Event, popped, run, pop_loaded, push_swapped, pop_swapped,
}
use concurrentfw.Stack.System
use concurrentfw.Stack.System.{access}

-- What the access at `pc` does to the views.
unfoldable pub observe : ℕ → Content → Pc → Views → Views
unfolding load modify
observe i stack (push_start b) v = reads dw_load_order i v
observe i stack pop_start v = reads dw_load_order i v
observe i stack (push_linked b cache) v =
    if same stack cache then swaps i (publishes i b v) else reads dw_cas_order i v
observe i stack (pop_read cache below) v =
    if same stack cache then swaps i v else reads dw_cas_order i v
observe i stack _ v = v

module _ (w : ℕ) where
  unfoldable pub effect : {s t : System.System} {e : Event} → System.Step w s e t → Views → Views
  unfolding observe
  effect {s} (access i) v = observe i s.memory.stack (s.pc i) v
  effect _ v = v

  pub data Reach (link : Block → ℕ) (owner : Block → Option ℕ)
      : System.System → Views → Type 0 where
    start : Reach link owner (System.init link owner) at_start
    moves :
        {s t : System.System} {e : Event} {v : Views}
        → Reach link owner s v
        → (st : System.Step w s e t) → Reach link owner t (effect st v)
    learned :
        {s : System.System} {v : Views}
        → Reach link owner s v
        → (i e : ℕ) → Reach link owner s (learns i e v)
