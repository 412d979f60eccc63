-- ===== src/StackTest/Examples.antt =====
-- The theorem on the blocks of src/tests/test_stack.cpp at a run with two workers, one of which moves a
-- block from its own stack to the other.
use concurrentfw.Prelude.{
  some, [], ◌∷◌, ℕ, zero, suc, ◌+◌, ◌^◌, ◌<◌, ◌≡◌, refl, ◌≢◌, ◌⊎◌, inl, inr, Bool, List, has, arith,
  ◌==◌, ℕ_discrete, dec_lt,
}
use concurrentfw.Stack.{Block, run, push_entry}
use concurrentfw.Stack.Chain.{Chain}
use concurrentfw.StackTest.{
  filled, finished, held, Bench, prepared, fills, has_filled, spawns, ends, leaves, goes_in,
  goes_out, pops, pushes, accesses, Reach, start, later, after, after_push,
}
use concurrentfw.StackTest.Conserved.{nothing_lost}
use concurrentfw.StackTest.Drain.{counted}
use concurrentfw.StackTest.Counted.{counted_all}

abbrev words : Block → ℕ
words b = 9

-- `malloc` has given block 7.
abbrev one_block : Block → Bool
one_block b = b == 7

record Run : Type 0 where
  state : Bench
  reach : Reach 64 2 words one_block state

-- The thread makes its next access.
go : ℕ → Run → Run
go i r = record { state = _; reach = later r.reach (accesses i _ refl) }

-- Thread 0 has pushed the block onto stack 1.
put : Run
unfolding go run push_entry prepared after after_push ℕ_discrete
put =
    go 0
      (go 0 (go 0 (record { state = _; reach = later start (fills 7 1 (omega arith) refl refl) })))

put_nothing : (b : Block) → put.state.place b ≢ held 0
unfolding put prepared
put_nothing b e = absurd (ground arith)

-- Both workers have begun; worker 1 has popped the block.
popped_it : Run
unfolding put dec_lt
popped_it =
    let begun : Run = record {
      state = _;
      reach =
          later
            (later
              (later (later (later put.reach (has_filled refl put_nothing)) (spawns 1 refl refl))
                (spawns 2 refl refl))
              (goes_in 2 refl refl))
            (pops 2 refl refl);
    } in
    go 2 (go 2 (go 2 begun))

moved : Run
unfolding popped_it
moved =
    let pushing_it : Run = record { state = _; reach = later popped_it.reach (pushes 2 7 refl) } in
    let pushed_it : Run = go 2 (go 2 (go 2 pushing_it)) in
    record {
      state = _;
      reach =
          later
            (later (later (later pushed_it.reach (ends refl)) (goes_out 2 refl refl))
              (leaves 2 refl refl))
            (leaves 1 refl refl);
    }

all_left :
    (i : ℕ) → ((moved.state.worker i).stage ≡ finished) ⊎ ((moved.state.worker i).stage ≡ filled)
unfolding moved
all_left zero = inr refl
all_left (suc zero) = inl refl
all_left (suc (suc zero)) = inl refl
all_left (suc (suc (suc i))) = inl (ground arith)

few_changes : (m : ℕ) → moved.state.changes m + 1 < 2 ^ 64
unfolding moved prepared ℕ_discrete
few_changes zero = omega arith
few_changes (suc zero) = omega arith
few_changes (suc (suc m)) =
    let none_there : moved.state.changes (suc (suc m)) ≡ 0 = ground arith in
    omega (arith, none_there)

nothing_lost_example :
    (m : ℕ) × ((n : ℕ)
      → (xs : List Block) × Chain moved.state.link (moved.state.stack n).value xs
        × (has 7 xs ≡ (m == n)))
nothing_lost_example = nothing_lost 64 2 moved.reach few_changes all_left 7 refl

abbrev allocated_blocks : List Block
allocated_blocks = 7 ∷ []

all_of_them : (b : Block) → has b allocated_blocks ≡ one_block b
all_of_them b = ground arith

counted_all_example : counted 64 5 moved.state 2 ≡ some 1
counted_all_example =
    counted_all 64 2 (omega arith) one_block moved.reach few_changes all_left allocated_blocks refl
      all_of_them 5 (omega arith)
