-- ===== src/MutexTest/Moves.antt =====
-- What the mutex of a tuple is to a worker of src/tests/test_futex.cpp, by where the worker stands.
use concurrentfw.Prelude.{
  ℕ, ◌≡◌, refl, ◌≢◌, inl, inr, Bool, subst, update, update_all, update_both, arith, ℕ_discrete,
}
use concurrentfw.Futex.{Call, Pc, outside, enter, owner}
use concurrentfw.Futex.Kernel.{Kernel}
use concurrentfw.Futex.System.{
  System, Step, call, recover, access, wait_returns, wait_blocks, wait_ends, wake, mover,
  others_stay,
}
use concurrentfw.Futex.System
use concurrentfw.Futex.Exclusion.{mutual_exclusion}
use concurrentfw.MutexTest.{
  Stage, main, testing, locking, loading, storing, unlocking, adding, finished, Worker, InMutex,
}

-- What a stage demands of the `Pc` of the thread in its mutex, and of the value it has loaded.
abbrev pub Demands : Stage → Pc → ℕ → Type 0
Demands testing pc passes = pc ≡ outside
Demands adding pc passes = pc ≡ outside
Demands finished pc passes = pc ≡ outside
Demands loading pc passes = pc ≡ owner
Demands (storing v) pc passes = (pc ≡ owner) × (v ≡ passes)
Demands _ pc passes = pc ≡ pc

-- A worker in the mutex of tuple `m`.
pub record Placed (m : ℕ) (w : Worker) (pc : Pc) (passes : ℕ) : Type 0 where
  pub elsewhere : w.stage ≢ main → w.thread_access ≢ m → pc ≡ outside
  pub here : w.thread_access ≡ m → Demands w.stage pc passes

-- A worker goes on at its tuple.
pub restage :
    {m : ℕ} {w : Worker} {pc : Pc} {passes : ℕ} (stage : Stage)
    → Placed m w pc passes
    → w.stage ≢ main
    → (w.thread_access ≡ m → Demands stage pc passes)
    → Placed m (record w { stage = stage }) pc passes
restage stage placed ne d = record { elsewhere = λ _ away. placed.elsewhere ne away; here = d }

-- A worker that has left the mutex goes to a tuple.
pub relocate :
    {m : ℕ} {w : Worker} {pc : Pc} {passes : ℕ} (next : ℕ)
    → Placed m w pc passes
    → w.stage ≢ main
    → (w.thread_access ≡ m → pc ≡ outside)
    → Placed m (record { thread_access = next; stage = testing }) pc passes
relocate {m} {w} {pc} next placed ne out =
    let quiet : pc ≡ outside = elim (ℕ_discrete w.thread_access m) [
      | yes e ↦ out e
      | no away ↦ placed.elsewhere ne away
    ] in
    record { elsewhere = λ _ _. quiet; here = λ _. quiet }

-- In a call it may have any `Pc`.
InMutex-Placed :
    {m : ℕ} (w : Worker) {pc : Pc} (pc' : Pc) (passes : ℕ)
    → w.thread_access ≡ m
    → InMutex w.stage pc
    → Placed m w pc' passes
InMutex-Placed w pc' passes e inside = record {
  elsewhere = λ _ away. absurd (away e);
  here = λ _. elim inside [
    | inl (is_locking, _) ↦ rw is_locking refl
    | inr is_unlocking ↦ rw is_unlocking refl
  ];
}

-- The mutex of tuple `m` and its counter.
pub record Kept {k : Kernel} (held : Bool) (worker : ℕ → Worker) (m : ℕ) (mutex : System k)
    (passes : ℕ) : Type 0 where
  pub reach : System.Reach k held mutex
  pub placed : (i : ℕ) → Placed m (worker i) (mutex.pc i) passes

module _ {k : Kernel} {held : Bool} {worker : ℕ → Worker} {m : ℕ} {mutex : System k} {passes : ℕ}
    (kept : Kept held worker m mutex passes) (i : ℕ) where
  open kept use {reach, placed}

  pub worker-Kept :
      (w : Worker) → Placed m w (mutex.pc i) passes → Kept held (update worker i w) m mutex passes
  worker-Kept w new = record {
    reach = reach;
    placed = update_all (λ j w. Placed m w (mutex.pc j) passes) i w (λ j _. placed j) new;
  }

  pub calls-Kept :
      (c : Call)
      → (worker i).thread_access ≡ m
      → (worker i).stage ≡ testing
      → Kept held
          (update worker i (record (worker i) { stage = locking }))
          m
          (record mutex { pc = update mutex.pc i (enter c) })
          passes
  calls-Kept c at_m is_testing = record {
    reach = System.later reach (
        call i c
          (subst (λ stage. Demands stage (mutex.pc i) passes) is_testing ((placed i).here at_m)));
    placed =
        update_both (λ j w pc. Placed m w pc passes) i _ (enter c) (λ j _. placed j)
          (record { elsewhere = λ _ away. absurd (away at_m); here = λ _. refl });
  }

  pub moves-Kept :
      {t : System k} (st : Step k mutex t)
      → mover st ≡ i
      → (worker i).thread_access ≡ m
      → InMutex (worker i).stage (mutex.pc i)
      → Kept held worker m t passes
  moves-Kept {t} st by at_m inside = record {
    reach = System.later reach st;
    placed = λ j. elim (ℕ_discrete i j) [
      | yes e ↦
          subst (λ j. Placed m (worker j) (t.pc j) passes) e
            (InMutex-Placed (worker i) (t.pc i) passes at_m inside)
      | no ne ↦
          let same = others_stay st j (λ e. ne (ground (arith, by))) in
          subst (λ pc. Placed m (worker j) pc passes) (ground (arith, same)) (placed j)
    ];
  }

  -- No other worker is between its load and its store.
  pub stores-Kept :
      (v passes' : ℕ)
      → (worker i).thread_access ≡ m
      → (worker i).stage ≡ storing v
      → Kept held (update worker i (record (worker i) { stage = unlocking })) m mutex passes'
  stores-Kept v passes' at_m is_storing = record {
    reach = reach;
    placed =
        update_all (λ j w. Placed m w (mutex.pc j) passes') i _
          (λ j ne. record {
            elsewhere = (placed j).elsewhere;
            here = λ e. other j ne (worker j).stage ((placed j).here e);
          })
          (InMutex-Placed _ {pc = mutex.pc i} (mutex.pc i) passes' at_m (inr refl));
  }
    where
      own : mutex.pc i ≡ owner
      own = (subst (λ stage. Demands stage (mutex.pc i) passes) is_storing ((placed i).here at_m)).0

      other :
          (j : ℕ)
          → i ≢ j
          → (stage : Stage) → Demands stage (mutex.pc j) passes
          → Demands stage (mutex.pc j) passes'
      other j ne (storing v') (own', _) =
          absurd (ne (mutual_exclusion reach i j (ground (arith, own)) (ground (arith, own'))))
      other j ne testing d = d
      other j ne adding d = d
      other j ne finished d = d
      other j ne loading d = d
      other j ne main d = d
      other j ne locking d = d
      other j ne unlocking d = d
