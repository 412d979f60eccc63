-- ===== src/Stack/Publication/Examples.antt =====
-- The theorem on what a `pop` sees, at a run of two threads (src/stack.cpp).
use concurrentfw.Prelude.{ℕ, ◌≡◌, refl, Option, some, true, ℕ_discrete}
use concurrentfw.Atomic.Views.{Includes}
use concurrentfw.Stack.{Block, run, push_entry}
use concurrentfw.Stack.System.{System, init, call_push, call_pop, access}
use concurrentfw.AbaWrapper.Publication.{Views, at_start}
use concurrentfw.Stack.Publication.{observe, effect, Reach, start, moves, learned}
use concurrentfw.Stack.Publication.Seen.{popper_sees}

abbrev words : Block → ℕ
words b = 9

abbrev owners : Block → Option ℕ
owners b = some 0

record Reached : Type 0 where
  state : System
  views : Views
  reach : Reach 64 words owners state views

go : ℕ → Reached → Reached
go i r = record { state = _; views = _; reach = moves r.reach (access i) }

-- Thread 0 has written to block 1 and pushed it; thread 1 is about to take it from the stack.
about_to_pop : Reached
unfolding go run init push_entry observe at_start effect ℕ_discrete
about_to_pop =
    let a : Reached = record {
      state = _;
      views = _;
      reach = moves (learned start 0 5) (call_push 0 1 refl (λ _. refl));
    } in
    let b : Reached = go 0 (go 0 (go 0 a)) in
    let c : Reached = record { state = _; views = _; reach = moves b.reach (call_pop 1 refl) } in
    go 1 (go 1 c)

published_write : about_to_pop.views.published 1 5 ≡ true
unfolding about_to_pop
published_write = refl

popper_sees_example :
    Includes
      ((observe 1 about_to_pop.state.memory.stack
          (about_to_pop.state.pc 1)
          about_to_pop.views).thread
        1).current
      (about_to_pop.views.published 1)
unfolding about_to_pop
popper_sees_example = popper_sees 64 about_to_pop.reach 1 1 refl
