-- ===== src/MutexTest/Held.antt =====
-- `test_trylock_fail` of src/tests/test_futex.cpp, in which `main` holds all mutexes.
use concurrentfw.Prelude.{ℕ, ◌≡◌, refl, sym, ◌∙◌, ◌≢◌, true, subst, update_ne, update_all, arith}
use concurrentfw.Futex.{owner, enter}
use concurrentfw.Futex.Kernel.{Kernel}
use concurrentfw.Futex.System.{init}
use concurrentfw.Futex.Exclusion.{mutual_exclusion}
use concurrentfw.MutexTest.{
  main, storing, Worker, Plan, Tuple, Bench, Move, stops, leaves, calls, moves, enters, finds_busy,
  loads, stores, unlocked, adds, Reach, start, later, prepared, set_worker, set_tuple,
}
use concurrentfw.Futex.System.{others_stay}
use concurrentfw.MutexTest.Invariant.{AllKept, Reach-AllKept, demanded}

module _ {k : Kernel} (p : Plan) where
  -- `main` owns the mutex, and nothing is counted.
  record Locked (t : Tuple k) : Type 0 where
    own : t.mutex.pc 0 ≡ owner
    nothing : t.passes_locked ≡ 0

  record AllLocked (s : Bench k) : Type 0 where
    aside : (s.worker 0).stage ≡ main
    all_locked : (m : ℕ) → Locked (s.tuple m)

  module _ {s : Bench k} (kept : AllKept p s) (inv : AllLocked s) (i : ℕ) where
    open s use {tuple, worker}
    open inv use {aside, all_locked}

    is_worker : (worker i).stage ≢ main → 0 ≢ i
    is_worker ne e = ne (subst (λ i. (worker i).stage ≡ main) e aside)

    -- No worker owns a mutex.
    none_owns : (m : ℕ) → (worker i).stage ≢ main → (tuple m).mutex.pc i ≢ owner
    none_owns m ne e =
        let own = (all_locked m).own in
        is_worker ne (mutual_exclusion (kept m).reach 0 i (ground (arith, own)) (ground (arith, e)))

    worker-AllLocked : (w : Worker) → (worker i).stage ≢ main → AllLocked (set_worker k s i w)
    worker-AllLocked w ne = record {
      aside = let apart : i ≢ 0 = λ e. is_worker ne (ground arith) in ground (arith, apart);
      all_locked = all_locked;
    }

  tuple-AllLocked :
      {s : Bench k} → AllLocked s → (m : ℕ) (t : Tuple k) → Locked t → AllLocked (set_tuple k s m t)
  tuple-AllLocked inv m t new = record {
    aside = inv.aside;
    all_locked = update_all (λ _ (t : Tuple k). Locked t) m t (λ m' _. inv.all_locked m') new;
  }

  Move-AllLocked : {s t : Bench k} → AllKept p s → Move k p s t → AllLocked s → AllLocked t
  Move-AllLocked kept stops inv = record { aside = inv.aside; all_locked = inv.all_locked }
  Move-AllLocked kept (leaves i is _) inv = worker-AllLocked kept inv i _ (ground arith)
  Move-AllLocked {s} kept (calls i m at_m is _) inv =
      let ne : (s.worker i).stage ≢ main = ground arith in
      tuple-AllLocked (worker-AllLocked kept inv i _ ne) m _ (record {
        own =
            update_ne (s.tuple m).mutex.pc i 0 (enter p.way_in)
              (λ e. is_worker kept inv i ne (sym e))
            ∙ (inv.all_locked m).own;
        nothing = (inv.all_locked m).nothing;
      })
  Move-AllLocked {s} kept (moves i m at_m inside st by _) inv =
      let ne : (s.worker i).stage ≢ main = ground arith in
      tuple-AllLocked inv m _ (record {
        own = others_stay st 0 (λ e. is_worker kept inv i ne (sym e ∙ by)) ∙ (inv.all_locked m).own;
        nothing = (inv.all_locked m).nothing;
      })
  Move-AllLocked {s} kept (enters i is own) inv = worker-AllLocked kept inv i _ (ground arith)
  Move-AllLocked kept (finds_busy i is _ _) inv = worker-AllLocked kept inv i _ (ground arith)
  Move-AllLocked kept (loads i is) inv = worker-AllLocked kept inv i _ (ground arith)
  Move-AllLocked {s} kept (stores i m v at_m is) inv =
      absurd (none_owns kept inv i m (ground arith) (demanded p s kept i m (storing v) at_m is).0)
  Move-AllLocked kept (unlocked i is _) inv = worker-AllLocked kept inv i _ (ground arith)
  Move-AllLocked {s} kept (adds i m at_m is) inv =
      tuple-AllLocked (worker-AllLocked kept inv i _ (ground arith)) m _
        (record { own = (inv.all_locked m).own; nothing = (inv.all_locked m).nothing })

  Reach-AllLocked : {s : Bench k} → p.held ≡ true → Reach k p s → AllLocked s
  unfolding prepared init
  Reach-AllLocked held start = record {
    aside = refl;
    all_locked = λ m. record { own = ground arith; nothing = refl };
  }
  Reach-AllLocked held (later r st) = Move-AllLocked (Reach-AllKept p r) st (Reach-AllLocked held r)

  -- In every reachable state of a test whose `main` holds all mutexes, whatever the workers call and
  -- the kernel answers, each `passes_locked` is 0, as the end of `test_trylock_fail` demands.
  pub held_counts_nothing :
      {s : Bench k} → p.held ≡ true → Reach k p s → (m : ℕ) → (s.tuple m).passes_locked ≡ 0
  held_counts_nothing held r m = ((Reach-AllLocked held r).all_locked m).nothing
