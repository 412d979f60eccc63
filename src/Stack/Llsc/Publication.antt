-- ===== src/Stack/Llsc/Publication.antt =====
-- The memory orders of the class `Stack` (src/stack.cpp) on a platform with LLSC, by the exclusive
-- loads and stores of either version of the ARM code.
pub mod Invariant
pub mod Seen
mod Examples
use concurrentfw.Prelude.{
  ℕ, ◌≡◌, refl, Bool, true, false, Option, ◌==◌, ◌||◌, if◌then◌else◌, update,
}
use concurrentfw.Arm.Orders.{
  Version, Processor, atomic_exclusive_load_aquire, atomic_exclusive_store_release,
}
use concurrentfw.Stack.{Block, Event}
use concurrentfw.AbaWrapper.Publication.{Views, at_start, publishes, learns}
use concurrentfw.Stack.Llsc.{Memory, view, Pc, push_start, push_linked, pop_start, pop_read}
use concurrentfw.Stack.Llsc.System
use concurrentfw.Stack.Llsc.System.{access}

-- The processor that runs thread `i`.
abbrev pub processor : ℕ → Memory → Views → Processor ℕ
processor i m v = record { monitor = view i m; message = v.message; thread = v.thread i }

abbrev pub proceeds : ℕ → Processor ℕ → Views → Views
proceeds i p v = record v { thread = update v.thread i p.thread; message = p.message }

-- What the access at `pc` does to the views.
unfoldable pub observe : Version → ℕ → Memory → Pc → Views → Views
observe version i m (push_start block) v =
    proceeds i (atomic_exclusive_load_aquire version (processor i m v)).0 v
observe version i m pop_start v =
    proceeds i (atomic_exclusive_load_aquire version (processor i m v)).0 v
observe version i m (push_linked block cache) v =
    let (p, stored) = atomic_exclusive_store_release version i block (processor i m v) in
    if stored then proceeds i p (publishes i block v) else proceeds i p v
observe version i m (pop_read cache below) v =
    proceeds i (atomic_exclusive_store_release version i below (processor i m v)).0 v
observe version i m _ v = v

module _ (version : Version) where
  unfoldable pub effect : {s t : System.System} {e : Event} → System.Step s e t → Views → Views
  unfolding observe
  effect {s} (access i) v = observe version i s.memory (s.pc i) v
  effect _ v = v

  pub data Reach (link : Block → ℕ) (owner : Block → Option ℕ)
      : System.System → Views → Type 0 where
    start : Reach link owner (System.init link owner) at_start
    moves :
        {s t : System.System} {e : Event} {v : Views}
        → Reach link owner s v
        → (st : System.Step s e t) → Reach link owner t (effect st v)
    learned :
        {s : System.System} {v : Views}
        → Reach link owner s v
        → (i e : ℕ) → Reach link owner s (learns i e v)
