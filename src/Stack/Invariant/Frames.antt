-- ===== src/Stack/Invariant/Frames.antt =====
-- What a thread's locals say about memory survives the accesses of the other threads.
use concurrentfw.Prelude.{ℕ, ◌<◌, ◌≢◌, Option, some, update, arith}
use concurrentfw.AbaWrapper.{Content}
use concurrentfw.Stack.{
  Block, null, Pc, idle, push_start, push_cached, push_linked, pop_start, pop_cached, pop_read,
  rejected,
}
use concurrentfw.Stack.Invariant.{Local}

module _ (link : Block → ℕ) (stack : Content) (owner : Block → Option ℕ) (j : ℕ) where
  -- The stack has changed, and its counter has grown.
  pub Local-stack :
      (stack' : Content) (p : Pc)
      → stack.counter < stack'.counter
      → Local link stack owner j p
      → Local link stack' owner j p
  Local-stack stack' idle lt l = tt
  Local-stack stack' (push_start b) lt l = l
  Local-stack stack' (push_cached b c) lt l = ground arith
  Local-stack stack' (push_linked b c) lt l = ground arith
  Local-stack stack' pop_start lt l = tt
  Local-stack stack' (pop_cached c) lt l = ground arith
  Local-stack stack' (pop_read c below) lt l = ground arith
  Local-stack stack' rejected lt l = tt

  -- A block that the thread does not own has changed hands.
  pub Local-owner :
      (b : Block) (o : Option ℕ) (p : Pc)
      → owner b ≢ some j
      → Local link stack owner j p
      → Local link stack (update owner b o) j p
  Local-owner b o idle ne l = tt
  Local-owner b o (push_start d) ne l = ground arith
  Local-owner b o (push_cached d c) ne l = ground arith
  Local-owner b o (push_linked d c) ne l = ground arith
  Local-owner b o pop_start ne l = tt
  Local-owner b o (pop_cached c) ne l = l
  Local-owner b o (pop_read c below) ne l = l
  Local-owner b o rejected ne l = tt

  -- A block that the thread does not own, and that is not on top, has been written to.
  pub Local-link :
      (b : Block) (word : ℕ) (p : Pc)
      → owner b ≢ some j
      → (stack.value ≢ null → b ≢ stack.value)
      → Local link stack owner j p
      → Local (update link b word) stack owner j p
  Local-link b word idle ne top l = tt
  Local-link b word (push_start d) ne top l = l
  Local-link b word (push_cached d c) ne top l = l
  Local-link b word (push_linked d c) ne top l = ground arith
  Local-link b word pop_start ne top l = tt
  Local-link b word (pop_cached c) ne top l = l
  Local-link b word (pop_read c below) ne top l = ground arith
  Local-link b word rejected ne top l = tt
