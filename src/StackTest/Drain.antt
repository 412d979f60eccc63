-- ===== src/StackTest/Drain.antt =====
-- The loops at the end of `test_stack` (src/tests/test_stack.cpp), which pop what is left on the stacks.
use concurrentfw.Prelude.{
  ℕ, zero, suc, ◌+◌, ◌<◌, ◌≡◌, refl, ◌≢◌, ◌∙◌, ap, sym, Option, none, some, List, [], length, arith,
  ℕ_discrete,
}
use concurrentfw.AbaWrapper.Dwcas.{next, dw_cas, others, rest}
use concurrentfw.Stack.{Block, null, Memory, pop_start, popped, found_empty, run, pop_loaded}
use concurrentfw.Stack.Chain.{Chain, Chain-top, Chain-null}
use concurrentfw.Stack.Calls.{drive, same_refl}
use concurrentfw.StackTest.{Bench, memory_of}
use concurrentfw.StackTest.Sums.{sum}

-- Adds what was counted, if it was.
abbrev pub plus : Option ℕ → Option ℕ → Option ℕ
plus (some a) (some b) = some (a + b)
plus _ _ = none

-- `while ((popped = stacks[stack_no].pop())) counted++`, by the only thread that is left: how many
-- blocks it counts. Each `pop` makes three accesses at most. Nothing is read from a freed block.
unfoldable pub drained : ℕ → ℕ → Memory → Option ℕ
drained w zero m = none
drained w (suc fuel) m = elim (drive w 3 [] m pop_start) [
  | some (m', e) ↦ elim e [ popped b ↦ plus (some 1) (drained w fuel m') | _ ↦ some 0 ]
  | none ↦ none
]

-- The loop over the first `n` stacks, each of which has its own content.
unfoldable pub counted : ℕ → ℕ → Bench → ℕ → Option ℕ
unfolding drained
counted w fuel s zero = some 0
counted w fuel s (suc n) = plus (drained w fuel (memory_of s n)) (counted w fuel s n)

module _ (w : ℕ) where
  pops_empty :
      (m : Memory) → m.stack.value ≡ null → drive w 3 [] m pop_start ≡ some (m, found_empty)
  unfolding drive run pop_loaded
  pops_empty m e = ground arith

  pops_top :
      (m : Memory)
      → m.stack.value ≢ null
      → drive w 3 [] m pop_start
        ≡ some (record m { stack = next w m.stack (m.link m.stack.value) }, popped m.stack.value)
  unfolding drive run pop_loaded others rest dw_cas
  pops_top m ne = ground (arith, same_refl m.stack)

  drained-empty :
      (fuel : ℕ) (m : Memory)
      → drive w 3 [] m pop_start ≡ some (m, found_empty)
      → drained w (suc fuel) m ≡ some 0
  unfolding drained
  drained-empty fuel m e = ground (arith, e)

  drained-top :
      (fuel : ℕ) (m m' : Memory) (b : Block)
      → drive w 3 [] m pop_start ≡ some (m', popped b)
      → drained w (suc fuel) m ≡ plus (some 1) (drained w fuel m')
  unfolding drained
  drained-top fuel m m' b e = rw (drained, e) refl

  -- It counts the blocks of the chain, and comes to an end.
  pub drained-length :
      (xs : List Block) (fuel : ℕ) (m : Memory)
      → Chain m.link m.stack.value xs
      → length xs < fuel
      → drained w fuel m ≡ some (length xs)
  unfolding drained next
  drained-length xs zero m c lt = absurd (omega arith)
  drained-length xs (suc fuel) m c lt = elim (ℕ_discrete m.stack.value null) [
    | yes z ↦
        let none_left = Chain-null c z in
        drained-empty fuel m (pops_empty m z) ∙ ap (λ l. some (length l)) (sym none_left)
    | no ne ↦
        let (ys, xs_is, below, new) = Chain-top c ne in
        let m' : Memory = record m { stack = next w m.stack (m.link m.stack.value) } in
        let fewer : length ys < fuel = ground (arith, xs_is, lt) in
        drained-top fuel m m' m.stack.value (pops_top m ne)
        ∙ ap (plus (some 1)) (drained-length ys fuel m' below fewer)
        ∙ rw xs_is (ap some (omega arith))
  ]

  pub counted-sum :
      (fuel : ℕ) (s : Bench) (lengths : ℕ → ℕ) (n : ℕ)
      → ((m : ℕ) → m < n → drained w fuel (memory_of s m) ≡ some (lengths m))
      → counted w fuel s n ≡ some (sum n lengths)
  unfolding counted
  counted-sum fuel s lengths zero each = refl
  counted-sum fuel s lengths (suc n) each =
      rw (each n (omega arith), counted-sum fuel s lengths n (λ m lt. each m (omega arith))) refl
