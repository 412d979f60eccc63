-- ===== src/Stack/Progress.antt =====
-- The class `Stack` (src/stack.cpp) is lock-free: a thread that has to try again does so because the
-- call of another one has taken effect.
use concurrentfw.Prelude.{
  ℕ, suc, ◌+◌, ◌≤◌, ◌≡◌, ◌∙◌, refl, Bool, true, false, arith, if◌then◌else◌, update, update_self,
}
use concurrentfw.AbaWrapper.{Content, same}
use concurrentfw.Stack.{
  Memory, Pc, idle, push_start, push_cached, push_linked, pop_start, pop_cached, pop_read, rejected,
  Event, silent, run,
}
use concurrentfw.Stack.System.{
  System, settle, tally, Step, call_push, call_pop, recover, use_block, hand_over, access,
}

abbrev pub in_call : Pc → Bool
in_call idle = false
in_call rejected = false
in_call _ = true

-- The accesses that a call has still to make while nobody changes the stack.
abbrev rank : Content → Pc → ℕ
rank stack idle = 0
rank stack rejected = 0
rank stack (push_start b) = 3
rank stack (push_cached b c) = if same stack c then 2 else 4
rank stack (push_linked b c) = if same stack c then 1 else 3
rank stack pop_start = 3
rank stack (pop_cached c) = if same stack c then 2 else 4
rank stack (pop_read c below) = if same stack c then 1 else 3

rank-le : (stack : Content) (p : Pc) → rank stack p ≤ 4
rank-le stack p = ground arith

rank-in_call : (stack : Content) (p : Pc) → in_call p ≡ true → 1 ≤ rank stack p
rank-in_call stack p h = ground arith

rank_moves :
    {a b : Content} → a ≡ b → (p q : Pc) → rank a q + 1 ≤ rank a p → rank b q + 1 ≤ rank b p
rank_moves e p q h = rw e at h

same_refl : (c : Content) → same c c ≡ true
same_refl c = ground arith

module _ (w : ℕ) where
  run-stack : (m : Memory) (p : Pc) → (run w m p).2 ≡ silent → (run w m p).0.stack ≡ m.stack
  unfolding run
  run-stack m p h = ground arith

  -- A silent access of a thread in a call is progress.
  run-rank :
      (m : Memory) (p : Pc)
      → (run w m p).2 ≡ silent
      → in_call p ≡ true
      → (in_call (run w m p).1 ≡ true) × (rank m.stack (run w m p).1 + 1 ≤ rank m.stack p)
  unfolding run
  run-rank m (push_start b) h c = (refl, rw (same_refl m.stack) (omega arith))
  run-rank m (push_cached b d) h c = (refl, ground arith)
  run-rank m (push_linked b d) h c = ground (arith, same_refl m.stack)
  run-rank m pop_start h c = ground (arith, same_refl m.stack)
  run-rank m (pop_cached d) h c = (refl, ground arith)
  run-rank m (pop_read d below) h c = ground (arith, same_refl m.stack)
  run-rank m idle h c = absurd (cc)
  run-rank m rejected h c = absurd (cc)

  Step-stack :
      {s t : System} {e : Event} → Step w s e t → e ≡ silent → t.memory.stack ≡ s.memory.stack
  Step-stack (call_push i b e own) h = refl
  Step-stack (call_pop i e) h = refl
  Step-stack (recover i e) h = refl
  Step-stack (use_block i b word e own) h = refl
  Step-stack (hand_over i j b e own) h = refl
  Step-stack {s} (access i) h = run-stack s.memory (s.pc i) h

  -- The state after an access of thread `i`.
  abbrev pub accessed : ℕ → System → System
  accessed i t = record {
    memory = (run w t.memory (t.pc i)).0;
    pc = update t.pc i (run w t.memory (t.pc i)).1;
    owner = settle i (run w t.memory (t.pc i)).2 t.owner;
    changes = tally (run w t.memory (t.pc i)).2 t.changes;
  }

  -- A part of a run in which no push or pop takes effect or finds the stack empty, and thread `i`
  -- makes `n` accesses.
  pub data Quiet (i : ℕ) (s : System) : ℕ → System → Type 0 where
    begin : Quiet i s 0 s
    own :
        {n : ℕ} {t : System}
        → Quiet i s n t
        → (run w t.memory (t.pc i)).2 ≡ silent
        → Quiet i s (suc n) (accessed i t)
    other :
        {n : ℕ} {t u : System} → Quiet i s n t → Step w t silent u → u.pc i ≡ t.pc i → Quiet i s n u

  Quiet-rank :
      {i : ℕ} {s : System} {n : ℕ} {t : System}
      → Quiet i s n t
      → in_call (s.pc i) ≡ true
      → (in_call (t.pc i) ≡ true)
        × (t.memory.stack ≡ s.memory.stack)
        × (n + rank s.memory.stack (t.pc i) ≤ rank s.memory.stack (s.pc i))
  Quiet-rank begin c = (c, refl, omega arith)
  Quiet-rank {i} {s} (own {t} q e) c =
      let (inside, same_stack, less) = Quiet-rank q c in
      let (inside', less') = run-rank t.memory (t.pc i) e inside in
      rw (update_self t.pc i) (
        inside',
        run-stack t.memory (t.pc i) e ∙ same_stack,
        (let less_now = rank_moves same_stack (t.pc i) (run w t.memory (t.pc i)).1 less' in
            omega arith),
      )
  Quiet-rank {s} (other q st place) c =
      let (inside, same_stack, less) = Quiet-rank q c in
      rw place (inside, Step-stack st refl ∙ same_stack, less)

  -- While no push or pop of any thread takes effect, and none finds the stack empty, a thread in a
  -- call stays in it and makes three accesses at most.
  pub lock_free :
      {i n : ℕ} {s t : System}
      → Quiet i s n t
      → in_call (s.pc i) ≡ true
      → (in_call (t.pc i) ≡ true) × (n ≤ 3)
  lock_free {i} {s} {t} q c =
      let (inside, same_stack, less) = Quiet-rank q c in
      let more = rank-in_call s.memory.stack (t.pc i) inside in
      let most = rank-le s.memory.stack (s.pc i) in (inside, omega arith)
