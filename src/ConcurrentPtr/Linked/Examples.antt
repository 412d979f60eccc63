-- ===== src/ConcurrentPtr/Linked/Examples.antt =====
-- The theorem on a shared pointer over LLSC at a run of two threads (src/concurrentfw/concurrent_ptr.hpp).
use concurrentfw.Prelude.{ℕ, ◌≡◌, refl, some, List, ℕ_discrete}
use concurrentfw.Atomic.Views.{Includes}
use concurrentfw.Arm.Orders.{armv7}
use concurrentfw.AbaWrapper.Llsc.{construct}
use concurrentfw.AbaWrapper.Publication.{Views, at_start}
use concurrentfw.ConcurrentPtr.Shared.{Event}
use concurrentfw.ConcurrentPtr.Shared.Register.{replay}
use concurrentfw.ConcurrentPtr.Linked.{
  Memory, Pc, run, observe, Reach, start, call_set, call_get, access, learned,
}
use concurrentfw.ConcurrentPtr.Linked.Register.{linked_pointer}

record Reached : Type 0 where
  events : List Event
  memory : Memory
  pc : ℕ → Pc
  views : Views
  reach : Reach armv7 0 events memory pc views

-- Thread 0 has written to what 0x1000 points to and set the pointer; thread 1 is about to get it.
about_to_get : Reached
unfolding run observe at_start ℕ_discrete
about_to_get = record {
  events = _;
  memory = _;
  pc = _;
  views = _;
  reach = call_get (access (access (call_set (learned start 0 5) 0 0x1000 refl) 0) 0) 1 refl;
}

linked_pointer_example :
    (replay about_to_get.events (some 0) ≡ some 0x1000)
    × Includes
        ((observe armv7 1 about_to_get.memory (about_to_get.pc 1) about_to_get.views).thread
          1).current
        (about_to_get.views.published 0x1000)
unfolding about_to_get run construct
linked_pointer_example = linked_pointer about_to_get.reach 1 0x1000 refl
