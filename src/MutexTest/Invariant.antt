-- ===== src/MutexTest/Invariant.antt =====
-- How the workers of src/tests/test_futex.cpp use the mutexes: the invariant of every tuple, and the moves
-- of the workers.
use concurrentfw.Prelude.{
  ℕ, zero, suc, ◌≡◌, refl, ◌≢◌, subst, update, update_all, arith, dec_lt, ite,
}
use concurrentfw.Futex.{Call, lock, outside}
use concurrentfw.Futex.Kernel.{Kernel}
use concurrentfw.Futex.System
use concurrentfw.MutexTest.{
  Stage, main, testing, locking, loading, storing, unlocking, adding, finished, Worker, Plan, Tuple,
  Bench, Move, stops, leaves, calls, moves, enters, finds_busy, loads, stores, unlocked, adds,
  Reach, start, later, to_stage, set_worker, set_tuple, prepared, after_unlock,
}
use concurrentfw.MutexTest.Moves.{
  Demands, Placed, Kept, worker-Kept, calls-Kept, moves-Kept, stores-Kept, restage, relocate,
}

module _ {k : Kernel} (p : Plan) where
  abbrev pub AllKept : Bench k → Type 0
  AllKept s = (m : ℕ) → Kept p.held s.worker m (s.tuple m).mutex (s.tuple m).passes_locked

  module _ (s : Bench k) (kept : AllKept s) (i : ℕ) where
    open s use {tuple, worker}

    -- What worker `i` knows at its stage.
    pub demanded :
        (m : ℕ) (stage : Stage)
        → (worker i).thread_access ≡ m
        → (worker i).stage ≡ stage
        → Demands stage ((tuple m).mutex.pc i) (tuple m).passes_locked
    demanded m stage at_m is =
        subst (λ stage. Demands stage ((tuple m).mutex.pc i) (tuple m).passes_locked) is
          (((kept m).placed i).here at_m)

    restaged-AllKept :
        (stage : Stage)
        → (worker i).stage ≢ main
        → let m = (worker i).thread_access in
          Demands stage ((tuple m).mutex.pc i) (tuple m).passes_locked
          → AllKept (to_stage k s i stage)
    restaged-AllKept stage ne d m = worker-Kept (kept m) i _ (
        restage stage ((kept m).placed i) ne
          (λ e. subst (λ m. Demands stage ((tuple m).mutex.pc i) (tuple m).passes_locked) e d))

    relocated-AllKept :
        (next : ℕ)
        → (worker i).stage ≢ main
        → (tuple (worker i).thread_access).mutex.pc i ≡ outside
        → AllKept (set_worker k s i (record { thread_access = next; stage = testing }))
    relocated-AllKept next ne out m = worker-Kept (kept m) i _ (
        relocate next ((kept m).placed i) ne
          (λ e. subst (λ m. (tuple m).mutex.pc i ≡ outside) e out))

    after_unlock-AllKept :
        (c : Call)
        → (worker i).stage ≡ unlocking
        → (tuple (worker i).thread_access).mutex.pc i ≡ outside
        → AllKept (set_worker k s i (after_unlock c p.following (worker i)))
    unfolding after_unlock
    after_unlock-AllKept lock is out = restaged-AllKept adding (ground arith) out
    after_unlock-AllKept c is out =
        relocated-AllKept (p.following (worker i).thread_access) (ground arith) out

    -- One tuple and one worker change.
    both-AllKept :
        (m : ℕ) (t : Tuple k) (w : Worker)
        → ((m' : ℕ) → m ≢ m' → Placed m' w ((tuple m').mutex.pc i) (tuple m').passes_locked)
        → Kept p.held (update worker i w) m t.mutex t.passes_locked
        → AllKept (set_tuple k (set_worker k s i w) m t)
    both-AllKept m t w others self =
        update_all (λ m (t : Tuple k). Kept p.held (update worker i w) m t.mutex t.passes_locked) m
          t (λ m' ne. worker-Kept (kept m') i w (others m' ne)) self

  Move-AllKept : {s t : Bench k} → Move k p s t → AllKept s → AllKept t
  Move-AllKept stops kept = kept
  Move-AllKept {s} (leaves i is _) kept =
      restaged-AllKept s kept i finished (ground arith) (demanded s kept i _ testing refl is)
  Move-AllKept {s} (calls i m at_m is _) kept =
      both-AllKept s kept i m _ _
        (λ m' ne. restage locking ((kept m').placed i) (ground arith) (λ e. refl))
        (calls-Kept (kept m) i p.way_in at_m is)
  Move-AllKept {s} (moves i m at_m inside st by within) kept =
      update_all (λ m (t : Tuple k). Kept p.held s.worker m t.mutex t.passes_locked) m _
        (λ m' _. kept m') (moves-Kept (kept m) i st by at_m inside)
  Move-AllKept {s} (enters i is own) kept = restaged-AllKept s kept i loading (ground arith) own
  Move-AllKept {s} (finds_busy i is _ out) kept =
      restaged-AllKept s kept i adding (ground arith) out
  Move-AllKept {s} (loads i is) kept =
      restaged-AllKept s kept i (storing (s.tuple (s.worker i).thread_access).passes_locked)
        (ground arith) (demanded s kept i _ loading refl is, refl)
  Move-AllKept {s} (stores i m v at_m is) kept =
      both-AllKept s kept i m _ _
        (λ m' ne. restage unlocking ((kept m').placed i) (ground arith) (λ e. refl))
        (stores-Kept (kept m) i v _ at_m is)
  Move-AllKept {s} (unlocked i is out) kept = after_unlock-AllKept s kept i p.way_in is out
  Move-AllKept {s} (adds i m at_m is) kept =
      let out = demanded s kept i m adding at_m is in
      let placed : (m' : ℕ)
          → Placed m' (record { thread_access = p.following m; stage = testing })
              ((s.tuple m').mutex.pc i) (s.tuple m').passes_locked =
        λ m'.
          relocate (p.following m) ((kept m').placed i) (ground arith)
            (λ e. subst (λ m. (s.tuple m).mutex.pc i ≡ outside) (ground (arith, at_m, e)) out) in
      both-AllKept s kept i m _ _ (λ m' _. placed m') (worker-Kept (kept m) i _ (placed m))

  pub Reach-AllKept : {s : Bench k} → Reach k p s → AllKept s
  unfolding prepared System.init
  Reach-AllKept start = λ m. record { reach = System.start; placed = at_start m }
    where
      at_start :
          (m i : ℕ)
          → Placed m
              ((prepared k p).worker i)
              ((System.init k p.held).pc i)
              ((prepared k p).tuple m).passes_locked
      at_start m zero = record { elsewhere = λ ne _. absurd (ne refl); here = λ _. refl }
      at_start m (suc i) =
          let out : (System.init k p.held).pc (suc i) ≡ outside = ground arith in
          record {
            elsewhere = λ _ _. out;
            here = λ _.
                elim (dec_lt i p.threads_no)
                  as (λ d. Demands (ite d testing main) ((System.init k p.held).pc (suc i)) 0) [
                    | yes _ ↦ out
                    | no _ ↦ refl
                  ];
          }
  Reach-AllKept (later r st) = Move-AllKept st (Reach-AllKept r)
