-- ===== src/Stack/Swaps.antt =====
-- The compare-and-swaps of the class `Stack` (src/stack.cpp), by whether they find the cached content.
use concurrentfw.Prelude.{◌≡◌, true, false, ℕ, arith}
use concurrentfw.AbaWrapper.{Content, same}
use concurrentfw.AbaWrapper.Dwcas.{next}
use concurrentfw.Stack.{
  Block, Memory, idle, push_cached, push_linked, pop_read, silent, pushed, popped, pop_loaded, run,
}

module _ (w : ℕ) (m : Memory) where
  pub push_hit :
      (b : Block) (c : Content)
      → same m.stack c ≡ true
      → run w m (push_linked b c) ≡ (record m { stack = next w c b }, idle, pushed b)
  unfolding run
  push_hit b c hit = ground arith

  pub push_miss :
      (b : Block) (c : Content)
      → same m.stack c ≡ false
      → run w m (push_linked b c) ≡ (m, push_cached b m.stack, silent)
  unfolding run
  push_miss b c miss = ground arith

  pub pop_hit :
      (c : Content) (below : Block)
      → same m.stack c ≡ true
      → run w m (pop_read c below) ≡ (record m { stack = next w c below }, idle, popped c.value)
  unfolding run
  pop_hit c below hit = ground arith

  pub pop_miss :
      (c : Content) (below : Block)
      → same m.stack c ≡ false
      → run w m (pop_read c below) ≡ (m, (pop_loaded m.stack).0, (pop_loaded m.stack).1)
  unfolding run
  pop_miss c below miss = ground arith
