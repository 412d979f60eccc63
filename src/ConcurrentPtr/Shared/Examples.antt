-- ===== src/ConcurrentPtr/Shared/Examples.antt =====
-- The theorem on a shared pointer at a run of two threads (src/concurrentfw/concurrent_ptr.hpp).
use concurrentfw.Prelude.{ℕ, ◌≡◌, refl, some, List, ℕ_discrete}
use concurrentfw.Atomic.Views.{Includes}
use concurrentfw.AbaWrapper.{Content}
use concurrentfw.AbaWrapper.Dwcas.{construct}
use concurrentfw.AbaWrapper.Publication.{Views, at_start}
use concurrentfw.ConcurrentPtr.Shared.{
  Pc, Event, run, observe, Reach, start, call_set, call_get, access, learned,
}
use concurrentfw.ConcurrentPtr.Shared.Register.{replay, shared_pointer}

record Reached : Type 0 where
  events : List Event
  content : Content
  pc : ℕ → Pc
  views : Views
  reach : Reach 64 0 events content pc views

-- Thread 0 has written to what 0x1000 points to and set the pointer; thread 1 is about to get it.
about_to_get : Reached
unfolding run observe at_start ℕ_discrete
about_to_get = record {
  events = _;
  content = _;
  pc = _;
  views = _;
  reach = call_get (access (access (call_set (learned start 0 5) 0 0x1000 refl) 0) 0) 1 refl;
}

shared_pointer_example :
    (replay about_to_get.events (some 0) ≡ some 0x1000)
    × Includes
        ((observe 1 about_to_get.content (about_to_get.pc 1) about_to_get.views).thread 1).current
        (about_to_get.views.published 0x1000)
unfolding about_to_get run construct
shared_pointer_example = shared_pointer about_to_get.reach 1 0x1000 refl
