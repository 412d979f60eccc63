-- ===== src/Stack/Llsc/Examples.antt =====
-- The theorems on the class `Stack` with LLSC at a concrete run: block 2 comes back on top between the
-- exclusive load and the exclusive store of another thread's `pop`.
use concurrentfw.Prelude.{
  ℕ, ◌≡◌, refl, ◌≢◌, Option, some, List, [], ◌∷◌, has, true, false, ◌≤◌, ◌+◌, ◌*◌, ℕ_discrete,
  arith,
}
use concurrentfw.Stack.{Block, null, Event}
use concurrentfw.Stack.Chain.{Chain}
use concurrentfw.Stack.Refinement.{replay, perform}
use concurrentfw.Stack.Ownership.{is_free}
use concurrentfw.Stack.Llsc.{Memory, view, idle, pop_start, run, push_entry}
use concurrentfw.Stack.Llsc.System.{System, init, call_push, call_pop, access, Run, start, later}
use concurrentfw.AbaWrapper.Llsc.{stored_by_other, modify}
use concurrentfw.Stack.Calls.{push_lambda, pop_lambda}
use concurrentfw.Stack.Llsc.Calls.{drive}
use concurrentfw.Stack.Llsc.Calls.Push.{Pushes, llsc_drive-push}
use concurrentfw.Stack.Llsc.Calls.Pop.{Pops, llsc_drive-pop}
use concurrentfw.Stack.Llsc.Progress.{
  in_call, Quiet, begin, own, cleared, accessed, interrupted, llsc_lock_free,
}
use concurrentfw.Stack.Llsc.Linearizable.{llsc_safe}

-- Thread 0 owns the blocks, and every first word is 9.
abbrev words : Block → ℕ
words b = 9

abbrev owners : Block → Option ℕ
owners b = some 0

record Ran : Type 0 where
  events : List Event
  state : System
  run_of : Run (init words owners) events state

opened : Ran
opened = record { events = []; state = init words owners; run_of = start }

go : ℕ → Ran → Ran
go i r = record { events = _; state = _; run_of = later r.run_of (access i) }

-- Whole calls of a thread that nobody disturbs, and the call of a `pop`.
push :
    (i : ℕ) (b : Block) (r : Ran)
    → r.state.pc i ≡ idle
    → (b ≢ null → r.state.owner b ≡ some i)
    → Ran
push i b r e mine =
    let a : Ran = record {
      events = _;
      state = _;
      run_of = later r.run_of (call_push i b e mine);
    } in
    go i (go i (go i a))

begin_pop : (i : ℕ) (r : Ran) → r.state.pc i ≡ idle → Ran
begin_pop i r e = record { events = _; state = _; run_of = later r.run_of (call_pop i e) }

pop : (i : ℕ) (r : Ran) → r.state.pc i ≡ idle → Ran
pop i r e = go i (go i (go i (begin_pop i r e)))

-- Thread 1 has read the link of block 2, which thread 0 then pops with block 1, and pushes again.
asleep : Ran
unfolding go opened run init push_entry ℕ_discrete push begin_pop
asleep =
    let a : Ran = push 0 2 (push 0 1 opened refl (λ _. refl)) refl (λ _. refl) in
    go 1 (go 1 (begin_pop 1 a refl))

returned : Ran
unfolding asleep pop
returned = push 0 2 (pop 0 (pop 0 asleep refl) refl) refl (λ _. refl)

awake : Ran
unfolding returned
awake = go 1 (go 1 (go 1 (go 1 returned)))

awake_replay : replay awake.events [] ≡ some []
unfolding awake replay perform
awake_replay = refl

awake_owner : awake.state.owner 2 ≡ some 1
unfolding awake
awake_owner = refl

llsc_safe_example :
    (xs : List Block) × (replay awake.events [] ≡ some xs)
    × Chain awake.state.memory.link awake.state.memory.stack xs
    × (has 2 xs ≡ is_free (awake.state.owner 2))
llsc_safe_example = llsc_safe words owners awake.run_of 2 (ground arith)

-- Thread 1 fails to store, loads again, and is interrupted.
retrying : Quiet 1 returned.state 2 1 (interrupted 1 (accessed 1 (accessed 1 returned.state)))
unfolding returned
retrying = cleared (own (own begin refl) refl)

returned_in_call : in_call (returned.state.pc 1) ≡ true
unfolding returned
returned_in_call = refl

llsc_lock_free_example :
    (in_call ((interrupted 1 (accessed 1 (accessed 1 returned.state))).pc 1) ≡ true)
    × (2 ≤ 3 * 1 + 4)
llsc_lock_free_example = llsc_lock_free retrying returned_in_call

-- A `push` and a `pop` of thread 0, with a store by another processor in the first round.
abbrev one_block : Memory
one_block = record { link = words; stack = 2; reserved = λ _. false }

llsc_drive-push_example :
    Pushes
      (stored_by_other 3 ∷ [])
      one_block
      1
      (drive 0 6 (stored_by_other 3 ∷ []) one_block (push_entry 1))
      (modify (push_lambda 1) (stored_by_other 3 ∷ []) (view 0 one_block))
llsc_drive-push_example = llsc_drive-push 0 (stored_by_other 3 ∷ []) one_block 1 (ground arith)

llsc_drive-pop_example :
    Pops 0
      (stored_by_other 0 ∷ [])
      one_block
      (drive 0 6 (stored_by_other 0 ∷ []) one_block pop_start)
      (modify (pop_lambda words) (stored_by_other 0 ∷ []) (view 0 one_block))
llsc_drive-pop_example = llsc_drive-pop 0 (stored_by_other 0 ∷ []) one_block
