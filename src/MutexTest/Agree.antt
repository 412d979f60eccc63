-- ===== src/MutexTest/Agree.antt =====
-- The two counters of a `ThreadTuple` of src/tests/test_futex.cpp in the tests with `lock`.
use concurrentfw.Prelude.{
  bit, ℕ, zero, suc, ◌+◌, ◌%◌, ◌^◌, ◌<◌, ◌≡◌, refl, sym, ◌∙◌, ap, ◌≢◌, Bool, true, false, ◌==◌,
  ◌&&◌, subst, update, update_all, arith, dec_lt, ite, ◌⊎◌, inl, inr,
}
use native.Mathlib.Nat.{mod-add-mod, mod-eq_of_lt, mod-lt}
use concurrentfw.Atomic.{fetch_add}
use concurrentfw.Futex.{lock}
use concurrentfw.Futex.Kernel.{Kernel}
use concurrentfw.MutexTest.{
  passes_bits, Stage, main, testing, locking, storing, unlocking, adding, finished, Worker, Plan,
  Tuple, Bench, Move, stops, leaves, calls, moves, enters, finds_busy, loads, stores, unlocked,
  adds, Reach, start, later, prepared, after_unlock, first_stage, set_worker, to_stage, set_tuple,
}
use concurrentfw.Futex.System.{System}
use concurrentfw.MutexTest.Invariant.{AllKept, Reach-AllKept, demanded}
use concurrentfw.MutexTest.Count.{count, count-update, count-update_same, count-none}

-- The worker has stored its pass in `passes_locked` and not yet added it to `passes_atomic`.
abbrev passing : Stage → Bool
passing unlocking = true
passing adding = true
passing _ = false

abbrev pub in_flight : ℕ → Worker → Bool
in_flight m w = (w.thread_access == m) && passing w.stage

first_stage-passing : (n i : ℕ) → passing (first_stage n i) ≡ false
first_stage-passing n zero = refl
first_stage-passing n (suc i) = elim (dec_lt i n) as (λ d. passing (ite d testing main) ≡ false) [
  | yes _ ↦ refl
  | no _ ↦ refl
]

first_stage-main : (n i : ℕ) → n < i → first_stage n i ≡ main
first_stage-main n zero lt = absurd (omega arith)
first_stage-main n (suc i) lt = elim (dec_lt i n) as (λ d. ite d testing main ≡ main) [
  | yes le ↦ absurd (omega (arith, lt, le))
  | no _ ↦ refl
]

module _ {k : Kernel} (p : Plan) where
  abbrev pub flying : Bench k → ℕ → ℕ
  flying s m = count (suc p.threads_no) (in_flight m) s.worker

  -- The counters of a tuple with `c` passes between them.
  record Apart (t : Tuple k) (c : ℕ) : Type 0 where
    apart : t.passes_locked ≡ (t.passes_atomic + c) % 2 ^ passes_bits
    fits : t.passes_atomic < 2 ^ passes_bits

  record Tally (s : Bench k) : Type 0 where
    taking_part : (i : ℕ) → p.threads_no < i → (s.worker i).stage ≡ main
    tally : (m : ℕ) → Apart (s.tuple m) (flying s m)

  module _ (s : Bench k) (inv : Tally s) (i : ℕ) (w : Worker) (ne : (s.worker i).stage ≢ main) where
    open s use {tuple, worker}
    open inv use {taking_part, tally}

    is_worker : i < suc p.threads_no
    is_worker = elim (dec_lt p.threads_no i) [
      | yes out ↦ absurd (ne (taking_part i out))
      | no within ↦ omega (arith, within)
    ]

    still_taking_part : (j : ℕ) → p.threads_no < j → (update worker i w j).stage ≡ main
    still_taking_part =
        update_all (λ j (w : Worker). p.threads_no < j → w.stage ≡ main) i w (λ j _. taking_part j)
          (λ out. absurd (ne (taking_part i out)))

    -- what its step makes of the number of passes in flight at tuple `m`
    shift :
        (m : ℕ)
        → flying (set_worker k s i w) m + bit (in_flight m (worker i))
          ≡ flying s m + bit (in_flight m w)
    shift m = count-update (in_flight m) worker i w (suc p.threads_no) is_worker

    quiet-Apart :
        (m : ℕ)
        → in_flight m (worker i) ≡ in_flight m w
        → Apart (tuple m) (flying (set_worker k s i w) m)
    quiet-Apart m same =
        subst (Apart (tuple m))
          (sym (count-update_same (in_flight m) worker i w (suc p.threads_no) same)) (tally m)

    -- The worker passes nothing on, and counts nothing.
    quiet-Tally : ((m : ℕ) → in_flight m (worker i) ≡ in_flight m w) → Tally (set_worker k s i w)
    quiet-Tally same = record {
      taking_part = still_taking_part;
      tally = λ m. quiet-Apart m (same m);
    }

    -- It has to do with the counters of tuple `m`.
    counts-Tally :
        (m : ℕ) (t : Tuple k)
        → (worker i).thread_access ≡ m
        → ((m' : ℕ) → m ≢ m' → in_flight m' w ≡ false)
        → Apart t (flying (set_worker k s i w) m)
        → Tally (set_tuple k (set_worker k s i w) m t)
    counts-Tally m t at_m out new = record {
      taking_part = still_taking_part;
      tally =
          update_all (λ m (t : Tuple k). Apart t (flying (set_worker k s i w) m)) m t
            (λ m' ne'. quiet-Apart m' (ground (arith, out m' ne'))) new;
    }

  -- The counters of a tuple do not depend on its mutex.
  mutex-Tally :
      (s : Bench k) (m : ℕ) (mutex : System k)
      → Tally s
      → Tally (set_tuple k s m (record (s.tuple m) { mutex = mutex }))
  mutex-Tally s m mutex inv = record {
    taking_part = inv.taking_part;
    tally =
        update_all (λ m (t : Tuple k). Apart t (flying s m)) m
          (record (s.tuple m) { mutex = mutex }) (λ m' _. inv.tally m')
          (record { apart = (inv.tally m).apart; fits = (inv.tally m).fits });
  }

  Move-Tally : {s t : Bench k} → p.way_in ≡ lock → AllKept p s → Move k p s t → Tally s → Tally t
  unfolding fetch_add after_unlock
  Move-Tally way kept stops inv = record { taking_part = inv.taking_part; tally = inv.tally }
  Move-Tally {s} way kept (leaves i is _) inv =
      quiet-Tally s inv i _ (ground arith) (λ m. ground arith)
  Move-Tally {s} way kept (calls i m at_m is _) inv =
      mutex-Tally (to_stage k s i locking) m _
        (quiet-Tally s inv i _ (ground arith) (λ m. ground arith))
  Move-Tally {s} way kept (moves i m at_m inside st by within) inv = mutex-Tally s m _ inv
  Move-Tally {s} way kept (enters i is own) inv =
      quiet-Tally s inv i _ (ground arith) (λ m. ground arith)
  Move-Tally {s} way kept (finds_busy i is tries _) inv = absurd (cc (way, tries))
  Move-Tally {s} way kept (loads i is) inv =
      quiet-Tally s inv i _ (ground arith) (λ m. ground arith)
  Move-Tally {s} way kept (stores i m v at_m is) inv =
      let loaded = (demanded p s kept i m (storing v) at_m is).1 in
      let working : (s.worker i).stage ≢ main = ground arith in
      let risen = shift s inv i (record (s.worker i) { stage = unlocking }) working m in
      counts-Tally s inv i _ working m _ at_m (λ m' ne. ground arith)
        (record {
          apart =
              ap (λ n. (n + 1) % 2 ^ passes_bits) (loaded ∙ (inv.tally m).apart)
              ∙ mod-add-mod ((s.tuple m).passes_atomic + flying s m) (2 ^ passes_bits) 1
              ∙ ap (λ n. n % 2 ^ passes_bits) (ground (arith, risen));
          fits = (inv.tally m).fits;
        })
  Move-Tally {s} way kept (unlocked i is out) inv =
      let working : (s.worker i).stage ≢ main = ground arith in
      let counted : after_unlock p.way_in p.following (s.worker i)
          ≡ record (s.worker i) { stage = adding } =
        ap (λ c. after_unlock c p.following (s.worker i)) way in
      quiet-Tally s inv i _ working (λ m. rw counted (ground arith))
  Move-Tally {s} way kept (adds i m at_m is) inv =
      let working : (s.worker i).stage ≢ main = ground arith in
      let next : Worker = record { thread_access = p.following m; stage = testing } in
      let fallen = shift s inv i next working m in
      counts-Tally s inv i next working m _ at_m (λ m' ne. ground arith)
        (record {
          apart =
              (inv.tally m).apart
              ∙ ap (λ n. n % 2 ^ passes_bits) (ground (arith, fallen))
              ∙ sym (
                  mod-add-mod ((s.tuple m).passes_atomic + 1) (2 ^ passes_bits)
                    (flying (set_worker k s i next) m));
          fits = mod-lt ((s.tuple m).passes_atomic + 1) (omega arith);
        })

  Reach-Tally : {s : Bench k} → p.way_in ≡ lock → Reach k p s → Tally s
  unfolding prepared
  Reach-Tally way start =
      let none = λ (m : ℕ).
        count-none (in_flight m) (prepared k p).worker (suc p.threads_no)
          (λ i. ground (arith, first_stage-passing p.threads_no i)) in
      record {
        taking_part = first_stage-main p.threads_no;
        tally = λ m. record { apart = rw (none m) refl; fits = omega arith };
      }
  Reach-Tally way (later r st) = Move-Tally way (Reach-AllKept p r) st (Reach-Tally way r)

  -- In every reachable state of a test whose workers call `lock`, whatever the kernel answers, each
  -- `passes_locked` is ahead of its `passes_atomic`, round the width of the counters, by the number
  -- of workers that have stored their pass in it and not yet added it to `passes_atomic`.
  pub passes_in_flight :
      {s : Bench k}
      → p.way_in ≡ lock
      → Reach k p s
      → (m : ℕ)
      → (s.tuple m).passes_locked ≡ ((s.tuple m).passes_atomic + flying s m) % 2 ^ passes_bits
  passes_in_flight way r m = ((Reach-Tally way r).tally m).apart

  -- In every reachable state of a test whose workers call `lock`, in which all of them have left
  -- their loop, `passes_locked` and `passes_atomic` of every tuple are the same: no update of the
  -- unprotected counter is lost, whatever the kernel answers.
  pub counters_agree :
      {s : Bench k}
      → p.way_in ≡ lock
      → Reach k p s
      → ((i : ℕ) → ((s.worker i).stage ≡ finished) ⊎ ((s.worker i).stage ≡ main))
      → (m : ℕ) → (s.tuple m).passes_locked ≡ (s.tuple m).passes_atomic
  counters_agree {s} way r done m =
      let none : flying s m ≡ 0 =
        count-none (in_flight m) s.worker (suc p.threads_no)
          (λ i. elim (done i) [ inl e ↦ ground arith | inr e ↦ ground arith ]) in
      passes_in_flight way r m
      ∙ ap (λ n. n % 2 ^ passes_bits) (ground (arith, none))
      ∙ mod-eq_of_lt ((Reach-Tally way r).tally m).fits
