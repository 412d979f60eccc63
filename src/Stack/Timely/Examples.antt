-- ===== src/Stack/Timely/Examples.antt =====
-- A run of the class `Stack` (src/stack.cpp) in which a counter of one bit turns twice.
use concurrentfw.Prelude.{ℕ, ◌≡◌, refl, Option, some, List, [], has, arith, ℕ_discrete}
use concurrentfw.Stack.{Block, Event, run, push_entry}
use concurrentfw.Stack.Chain.{Chain}
use concurrentfw.Stack.System.{System, init, call_push, call_pop, access}
use concurrentfw.Stack.Refinement.{replay}
use concurrentfw.Stack.Ownership.{is_free}
use concurrentfw.Stack.Timely.{Run, start, later, looked, look}
use concurrentfw.Stack.Timely.Safe.{timely_safe}

abbrev words : Block → ℕ
words b = 9

abbrev owners : Block → Option ℕ
owners b = some 0

record Ran : Type 0 where
  events : List Event
  state : System
  seen : ℕ → ℕ
  run_of : Run 1 words owners events state seen

-- Thread 0 pushes block 1 and pops it.
push_and_pop : Ran
unfolding run init push_entry ℕ_discrete looked look
push_and_pop =
    let pushes =
      later
        (later (later (later start (call_push 0 1 refl (λ _. refl)) tt) (access 0) tt) (access 0)
          tt)
        (access 0) (omega arith) in
    record {
      events = _;
      state = _;
      seen = _;
      run_of =
          later (later (later (later pushes (call_pop 0 refl) tt) (access 0) tt) (access 0) tt)
            (access 0) (omega arith);
    }

again : Ran
unfolding push_and_pop
again =
    let pushes =
      later
        (later (later (later push_and_pop.run_of (call_push 0 1 refl (λ _. refl)) tt) (access 0) tt)
          (access 0) tt)
        (access 0) (omega arith) in
    record {
      events = _;
      state = _;
      seen = _;
      run_of =
          later
            (later (later (later pushes (call_push 0 2 refl (λ _. refl)) tt) (access 0) tt)
              (access 0) tt)
            (access 0) (omega arith);
    }

four_changes : again.state.changes ≡ 4
unfolding again
four_changes = refl

timely_safe_example :
    (xs : List Block) × (replay again.events [] ≡ some xs)
    × Chain again.state.memory.link again.state.memory.stack.value xs
    × (has 1 xs ≡ is_free (again.state.owner 1))
timely_safe_example = timely_safe 1 (omega arith) words owners again.run_of 1 (ground arith)
