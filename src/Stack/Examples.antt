-- ===== src/Stack/Examples.antt =====
-- The theorems on the class `Stack` at a concrete run: two threads, and a `pop` whose
-- compare-and-swap comes too late.
use concurrentfw.Prelude.{
  ℕ, ◌≡◌, refl, ◌≢◌, Option, none, some, List, [], ◌∷◌, ◌+◌, true, ◌≤◌, arith, ℕ_discrete,
}
use concurrentfw.Stack.{
  Block, null, Memory, idle, pop_start, pop_cached, Event, popped, run, push_entry,
}
use concurrentfw.Stack.System.{System, init, call_push, call_pop, access, Run, start, later}
use concurrentfw.Stack.Race.{racing_read}
use concurrentfw.Stack.Refinement.{replay, perform}
use concurrentfw.AbaWrapper.{Content, content}
use concurrentfw.AbaWrapper.Dwcas.{modify, others, rest}
use concurrentfw.Stack.Calls.{drive, push_lambda, pop_lambda}
use concurrentfw.Stack.Calls.Push.{Pushes, drive-push}
use concurrentfw.Stack.Calls.Pop.{Pops, drive-pop}
use concurrentfw.Stack.Progress.{in_call, Quiet, begin, own, accessed, lock_free}

-- Thread 0 owns the blocks 1 and 2, and every first word is 9.
abbrev words : Block → ℕ
words b = 9

abbrev owners : Block → Option ℕ
owners b = some 0

record Ran (w : ℕ) : Type 0 where
  events : List Event
  state : System
  run_of : Run w (init words owners) events state

opened : (w : ℕ) → Ran w
opened w = record { events = []; state = init words owners; run_of = start }

-- The thread makes its next access.
go : {w : ℕ} → ℕ → Ran w → Ran w
go i r = record { events = _; state = _; run_of = later r.run_of (access i) }

-- Thread 0 pushes block 1, then block 2, and has begun a `pop` when thread 1 pops block 2.
two_pushed : Ran 64
unfolding go opened run init push_entry ℕ_discrete
two_pushed =
    let a : Ran 64 = record {
      events = _;
      state = _;
      run_of = later (opened 64).run_of (call_push 0 1 refl (λ _. refl));
    } in
    let b : Ran 64 = go 0 (go 0 (go 0 a)) in
    let c : Ran 64 = record {
      events = _;
      state = _;
      run_of = later b.run_of (call_push 0 2 refl (λ _. refl));
    } in
    go 0 (go 0 (go 0 c))

-- Thread 1 has popped block 2 between the load of thread 0 and its read.
overtaken : Ran 64
unfolding two_pushed
overtaken =
    let a : Ran 64 = record {
      events = _;
      state = _;
      run_of = later two_pushed.run_of (call_pop 0 refl);
    } in
    let b : Ran 64 = go 0 a in
    let c : Ran 64 = record { events = _; state = _; run_of = later b.run_of (call_pop 1 refl) } in
    go 1 (go 1 (go 1 c))

raced : Ran 64
unfolding overtaken
raced = go 0 (go 0 (go 0 (go 0 overtaken)))

raced_changes : raced.state.changes ≡ 4
unfolding raced
raced_changes = refl

raced_replay : replay raced.events [] ≡ some []
unfolding raced replay perform
raced_replay = refl

-- Thread 0 reads, fails to swap, and reads anew: the next access takes effect.
retrying :
    Quiet 64 0 overtaken.state 3 (accessed 64 0 (accessed 64 0 (accessed 64 0 overtaken.state)))
unfolding overtaken
retrying = own (own (own begin refl) refl) refl

overtaken_in_call : in_call (overtaken.state.pc 0) ≡ true
unfolding overtaken
overtaken_in_call = refl

lock_free_example :
    (in_call ((accessed 64 0 (accessed 64 0 (accessed 64 0 overtaken.state))).pc 0) ≡ true)
    × (3 ≤ 3)
lock_free_example = lock_free 64 retrying overtaken_in_call

-- Whole calls of a thread that nobody disturbs.
push :
    {w : ℕ} (i : ℕ) (b : Block) (r : Ran w)
    → r.state.pc i ≡ idle
    → (b ≢ null → r.state.owner b ≡ some i)
    → Ran w
push i b r e own_block =
    let a : Ran _ = record {
      events = _;
      state = _;
      run_of = later r.run_of (call_push i b e own_block);
    } in
    go i (go i (go i a))

loads : {w : ℕ} (i : ℕ) (r : Ran w) → r.state.pc i ≡ idle → Ran w
loads i r e = record { events = _; state = _; run_of = later r.run_of (call_pop i e) }

pop : {w : ℕ} (i : ℕ) (r : Ran w) → r.state.pc i ≡ idle → Ran w
pop i r e = go i (go i (go i (loads i r e)))

-- With a counter of one bit, a `pop` that sleeps while four changes bring block 2 back on top does
-- not notice: it takes the stack back to a block that thread 0 owns.
asleep : Ran 1
unfolding go opened run init push_entry ℕ_discrete push pop loads
asleep =
    let a : Ran 1 = push 0 1 (opened 1) refl (λ _. refl) in
    let b : Ran 1 = push 0 2 a refl (λ _. refl) in go 1 (go 1 (loads 1 b refl))

awake : Ran 1
unfolding asleep
awake =
    let c : Ran 1 = pop 0 (pop 0 asleep refl) refl in
    let d : Ran 1 = push 0 3 c refl (λ _. refl) in
    let e : Ran 1 = push 0 2 d refl (λ _. refl) in pop 1 (go 1 e) refl

wrapped_replay : replay awake.events [] ≡ none
unfolding awake replay perform
wrapped_replay = refl

-- A `push` and a `pop` whose first compare-and-swap comes too late.
abbrev one_block : Memory
one_block = record { link = words; stack = content 2 1 }

abbrev meanwhile : List (Content → Content)
meanwhile = (λ c. content 3 (c.counter + 1)) ∷ []

drive-push_example :
    Pushes 64 meanwhile one_block 1
      (drive 64 5 meanwhile one_block (push_entry 1))
      (modify 64 (push_lambda 1) meanwhile (content 2 1))
drive-push_example = drive-push 64 meanwhile one_block 1 (ground arith)

drive-pop_example :
    Pops 64 meanwhile one_block
      (drive 64 5 meanwhile one_block pop_start)
      (modify 64 (pop_lambda words) meanwhile (content 2 1))
drive-pop_example = drive-pop 64 meanwhile one_block

driven_pop :
    drive 64 5 meanwhile one_block pop_start
    ≡ some (record { link = words; stack = content 9 3 }, popped 3)
unfolding drive run others rest
driven_pop = refl

-- Thread 0 has begun another `pop` with block 2 on top.
looking : Ran 64
unfolding two_pushed
looking =
    let a : Ran 64 = record {
      events = _;
      state = _;
      run_of = later two_pushed.run_of (call_pop 0 refl);
    } in
    go 0 a

racing_read_example :
    (es : List Event) × (t : System) × Run 64 (init words owners) es t
    × (t.pc 0 ≡ pop_cached looking.state.memory.stack)
    × (t.owner looking.state.memory.stack.value ≡ some 1)
    × (t.memory.link looking.state.memory.stack.value ≡ 77)
unfolding looking
racing_read_example =
    racing_read 64 words owners looking.run_of 0 1 (ground arith) refl (λ e. cc) refl 77
