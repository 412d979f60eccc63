-- ===== src/Stack/Race.antt =====
-- The read of the block on top in `pop` (src/stack.cpp), against the block's next owner.
use concurrentfw.Prelude.{
  ℕ, ◌≡◌, refl, ◌∙◌, ap, subst, ◌≢◌, Option, some, List, [], ◌∷◌, ◌++◌, update, update_self, arith,
}
use concurrentfw.AbaWrapper.Dwcas.{next, dw_cas}
use concurrentfw.Stack.{
  Block, null, Memory, Pc, idle, pop_start, pop_cached, pop_read, Event, silent, popped, run,
}
use concurrentfw.Stack.System.{System, init, settle, tally, call_pop, use_block, access, Run, later}
use concurrentfw.Stack.Calls.{same_refl}

module _ (w : ℕ) where
  abbrev after_access : System → ℕ → Memory × Pc × Event → System
  after_access t i (m, p, e) = record {
    memory = m;
    pc = update t.pc i p;
    owner = settle i e t.owner;
    changes = tally e t.changes;
  }

  access-Run :
      {s t : System} {es : List Event} {p : Pc}
      → Run w s es t
      → (i : ℕ) (m' : Memory) (p' : Pc) (e : Event) → t.pc i ≡ p
      → run w t.memory p ≡ (m', p', e)
      → Run w s (es ++ e ∷ []) (after_access t i (m', p', e))
  access-Run {s} {t} {es} r i m' p' e at does =
      subst (λ a. Run w s (es ++ a.2 ∷ []) (after_access t i a)) (ap (run w t.memory) at ∙ does)
        (later r (access i))

  -- the accesses of a `pop` that nobody disturbs
  loads_top :
      (m : Memory) → m.stack.value ≢ null → run w m pop_start ≡ (m, pop_cached m.stack, silent)
  unfolding run
  loads_top m ne = ground arith

  swaps_top :
      (m : Memory) (below : Block)
      → run w m (pop_read m.stack below)
        ≡ (record m { stack = next w m.stack below }, idle, popped m.stack.value)
  unfolding run dw_cas
  swaps_top m below = ground (arith, same_refl m.stack)

  module _ (link : Block → ℕ) (owner : Block → Option ℕ) where
    -- From every state that is reached from a new stack, in which a thread `i` in `pop` is about to read
    -- the first word of the block on top, and another thread `j` is not in a call, a state is
    -- reached in which `j` owns that block and has written any given word to it, and `i` is still
    -- about to read it.
    pub racing_read :
        {es : List Event} {s : System}
        → Run w (init link owner) es s
        → (i j : ℕ) → i ≢ j
        → s.pc i ≡ pop_cached s.memory.stack
        → s.memory.stack.value ≢ null
        → s.pc j ≡ idle
        → (word : ℕ)
        → (es' : List Event) × (t : System) × Run w (init link owner) es' t
          × (t.pc i ≡ pop_cached s.memory.stack)
          × (t.owner s.memory.stack.value ≡ some j)
          × (t.memory.link s.memory.stack.value ≡ word)
    unfolding run
    racing_read {s} r i j ne reads top out word =
        let c = s.memory.stack in
        let below = s.memory.link c.value in
        let called = update s.pc j pop_start in
        let loaded = update called j (pop_cached c) in
        let read = update loaded j (pop_read c below) in
        let r1 = later r (call_pop j out) in
        let r2 =
          access-Run r1 j s.memory (pop_cached c) silent (update_self s.pc j pop_start)
            (loads_top s.memory top) in
        let r3 = access-Run r2 j s.memory (pop_read c below) silent (update_self called j _) refl in
        let r4 =
          access-Run r3 j _ idle (popped c.value) (update_self loaded j _)
            (swaps_top s.memory below) in
        let r5 = later r4 (
          use_block j c.value word (update_self read j idle)
            (update_self s.owner c.value (some j))) in
        let waits : update read j idle i ≡ pop_cached c = ground (arith, ne, reads) in
        (
          _,
          _,
          r5,
          waits,
          update_self s.owner c.value (some j),
          update_self s.memory.link c.value word,
        )
