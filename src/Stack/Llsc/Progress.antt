-- ===== src/Stack/Llsc/Progress.antt =====
-- The class `Stack` (src/stack.cpp) on a platform with LLSC is lock-free, but for the processor that
-- clears its monitor for reasons of its own.
use concurrentfw.Prelude.{
  ℕ, suc, ◌+◌, ◌*◌, ◌≤◌, ◌≡◌, refl, Bool, true, false, arith, if◌then◌else◌, update, update_self,
}
use concurrentfw.Stack.{silent}
use concurrentfw.Stack.System.{settle}
use concurrentfw.Stack.Llsc.{
  Memory, Pc, idle, push_start, push_cached, push_linked, pop_start, pop_cached, pop_read, rejected,
  run,
}
use concurrentfw.Stack.Llsc.System.{System, Step}

abbrev pub in_call : Pc → Bool
in_call idle = false
in_call rejected = false
in_call _ = true

-- The accesses that a call has still to make, from the state of its monitor, while nobody changes
-- the stack.
abbrev rank : Bool → Pc → ℕ
rank set idle = 0
rank set rejected = 0
rank set (push_start b) = 3
rank set (push_cached b c) = if set then 2 else 5
rank set (push_linked b c) = if set then 1 else 4
rank set pop_start = 3
rank set (pop_cached c) = if set then 2 else 5
rank set (pop_read c below) = if set then 1 else 4

rank-le : (set : Bool) (p : Pc) → rank set p ≤ 5
rank-le set p = ground arith

rank-in_call : (set : Bool) (p : Pc) → in_call p ≡ true → 1 ≤ rank set p
rank-in_call set p h = ground arith

-- A monitor that is cleared costs three accesses.
rank_cleared : (set : Bool) (p : Pc) → rank false p ≤ rank set p + 3
rank_cleared set p = ground arith

-- A silent access of a thread in a call is progress.
run-rank :
    (i : ℕ) (m : Memory) (p : Pc)
    → (run i m p).2 ≡ silent
    → in_call p ≡ true
    → (in_call (run i m p).1 ≡ true)
      × (rank ((run i m p).0.reserved i) (run i m p).1 + 1 ≤ rank (m.reserved i) p)
unfolding run
run-rank i m (push_start b) h c = (refl, rw (update_self m.reserved i true) (omega arith))
run-rank i m (push_cached b d) h c = (refl, ground arith)
run-rank i m (push_linked b d) h c = ground arith
run-rank i m pop_start h c = ground (arith, update_self m.reserved i true)
run-rank i m (pop_cached d) h c = (refl, ground arith)
run-rank i m (pop_read d below) h c = ground arith
run-rank i m idle h c = absurd (cc)
run-rank i m rejected h c = absurd (cc)

-- The state after an access of thread `i`.
abbrev pub accessed : ℕ → System → System
accessed i t = record {
  memory = (run i t.memory (t.pc i)).0;
  pc = update t.pc i (run i t.memory (t.pc i)).1;
  owner = settle i (run i t.memory (t.pc i)).2 t.owner;
}

-- The state after the processor of thread `i` has cleared its monitor.
abbrev pub interrupted : ℕ → System → System
interrupted i t = record t {
  memory = record t.memory { reserved = update t.memory.reserved i false };
}

-- A part of a run in which no push or pop takes effect or finds the stack empty, in which thread `i`
-- makes `n` accesses, and in which its processor clears its monitor `k` times.
pub data Quiet (i : ℕ) (s : System) : ℕ → ℕ → System → Type 0 where
  begin : Quiet i s 0 0 s
  own :
      {n k : ℕ} {t : System}
      → Quiet i s n k t
      → (run i t.memory (t.pc i)).2 ≡ silent
      → Quiet i s (suc n) k (accessed i t)
  cleared : {n k : ℕ} {t : System} → Quiet i s n k t → Quiet i s n (suc k) (interrupted i t)
  other :
      {n k : ℕ} {t u : System}
      → Quiet i s n k t
      → Step t silent u
      → u.pc i ≡ t.pc i
      → u.memory.reserved i ≡ t.memory.reserved i
      → Quiet i s n k u

Quiet-rank :
    {i : ℕ} {s : System} {n k : ℕ} {t : System}
    → Quiet i s n k t
    → in_call (s.pc i) ≡ true
    → (in_call (t.pc i) ≡ true)
      × (n + rank (t.memory.reserved i) (t.pc i) ≤ rank (s.memory.reserved i) (s.pc i) + 3 * k)
Quiet-rank begin c = (c, omega arith)
Quiet-rank {i} (own {t} q e) c =
    let (inside, less) = Quiet-rank q c in
    let (inside', less') = run-rank i t.memory (t.pc i) e inside in
    rw (update_self t.pc i) (inside', omega arith)
Quiet-rank {i} (cleared {t} q) c =
    let (inside, less) = Quiet-rank q c in
    let more = rank_cleared (t.memory.reserved i) (t.pc i) in
    (inside, rw (update_self t.memory.reserved i false) (omega arith))
Quiet-rank (other q st place monitor) c = rw (place, monitor) (Quiet-rank q c)

-- While no push or pop of any thread takes effect, and none finds the stack empty, a thread in a call
-- stays in it and makes four accesses at most, and three more for each time that its processor clears
-- its monitor.
pub llsc_lock_free :
    {i n k : ℕ} {s t : System}
    → Quiet i s n k t
    → in_call (s.pc i) ≡ true
    → (in_call (t.pc i) ≡ true) × (n ≤ 3 * k + 4)
llsc_lock_free {i} {s} {t} q c =
    let (inside, less) = Quiet-rank q c in
    let more = rank-in_call (t.memory.reserved i) (t.pc i) inside in
    let most = rank-le (s.memory.reserved i) (s.pc i) in (inside, omega arith)
