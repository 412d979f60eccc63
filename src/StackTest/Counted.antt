-- ===== src/StackTest/Counted.antt =====
-- The check at the end of src/tests/test_stack.cpp.
use concurrentfw.Prelude.{
  ℕ, ◌+◌, ◌^◌, ◌<◌, ◌≡◌, sym, ap, ◌∙◌, ◌⊎◌, Bool, true, some, List, has, length, arith, ◌==◌, bit,
}
use concurrentfw.Stack.{Block}
use concurrentfw.StackTest.{finished, filled, Bench, Reach, memory_of}
use concurrentfw.StackTest.Invariant.{InOrder}
use concurrentfw.StackTest.Conserved.{Reach-InOrder, on_stack}
use concurrentfw.StackTest.Range.{Ranged, Reach-Ranged}
use concurrentfw.StackTest.Drain.{counted, drained-length, counted-sum}
use concurrentfw.StackTest.Sums.{
  distinct, sum, total, Chain-distinct_all, sum-cong, sum-le, sum-one, total-cong, total-ones,
  sum-total, length-total,
}

module _ (w threads : ℕ) (some_threads : 0 < threads) (allocated : Block → Bool) {link : Block → ℕ}
    {s : Bench} (r : Reach w threads link allocated s) (bound : (m : ℕ) → s.changes m + 1 < 2 ^ w)
    (done : (i : ℕ) → ((s.worker i).stage ≡ finished) ⊎ ((s.worker i).stage ≡ filled))
    (bs : List Block) (once : distinct bs ≡ true)
    (those : (b : Block) → has b bs ≡ allocated b) where
  inv : InOrder allocated s
  inv = Reach-InOrder w threads r bound

  ranged : Ranged w threads some_threads allocated s
  ranged = Reach-Ranged w threads some_threads allocated r bound

  abbrev blocks : ℕ → List Block
  blocks m = (inv.kept m).blocks

  -- What is on a stack has been allocated.
  within : (m : ℕ) (b : Block) → has b (blocks m) ≡ true → has b bs ≡ true
  within m b h = those b ∙ ranged.range.only b (λ e. ground (arith, e, h, (inv.kept m).free b))

  -- An allocated block is on one of the stacks.
  on_one : (b : Block) → has b bs ≡ true → sum threads (λ m. bit (has b (blocks m))) ≡ 1
  on_one b h =
      let (m, free_on, there) = on_stack w threads s inv done b (sym (those b) ∙ h) in
      sum-cong threads (λ k. bit (has b (blocks k))) (λ k. bit (m == k))
        (λ k. ap bit ((inv.kept k).free b ∙ free_on k))
      ∙ sum-one threads m (ranged.range.on_within b m there)

  all_lengths : sum threads (λ m. length (blocks m)) ≡ length bs
  all_lengths =
      sum-cong threads (λ m. length (blocks m)) (λ m. total bs (λ b. bit (has b (blocks m))))
        (λ m.
          length-total (blocks m) bs (Chain-distinct_all (inv.kept m).holds.chain) once (within m))
      ∙ sum-total threads bs (λ m b. bit (has b (blocks m)))
      ∙ total-cong bs (λ b. sum threads (λ m. bit (has b (blocks m)))) (λ _. 1) on_one
      ∙ total-ones bs

  -- With one worker at least, in every reachable state in which no stack's counter has wrapped round,
  -- every thread has left its loop, and the filling is over, the loops at the end come to an end and
  -- count as many blocks as were allocated: `counted` is `expected`. The allocated blocks are given as a
  -- list that has each of them once, and the fuel of each loop is any number above its length.
  pub counted_all : (fuel : ℕ) → length bs < fuel → counted w fuel s threads ≡ some (length bs)
  counted_all fuel lt =
      counted-sum w fuel s (λ m. length (blocks m)) threads
        (λ m in_range.
          let part = sum-le threads m (λ m. length (blocks m)) in_range in
          drained-length w (blocks m) fuel (memory_of s m) (inv.kept m).holds.chain
            (omega (arith, part, all_lengths, lt)))
      ∙ ap some all_lengths
