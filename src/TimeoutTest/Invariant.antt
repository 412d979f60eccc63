-- ===== src/TimeoutTest/Invariant.antt =====
-- Who is behind the `Futex` of "check multiple timeout Futex locks" (src/tests/test_futex.cpp), and what
-- the shared numbers say of it.
use concurrentfw.Prelude.{
  ℕ, ◌≡◌, refl, sym, ◌∙◌, ◌≢◌, ◌⊎◌, inl, inr, Bool, true, false, update, update_all, update_both,
  subst, arith, ℕ_discrete, bit_or, Bool-cases,
}
use concurrentfw.Atomic.{add_fetch, sub_fetch, or_fetch}
use concurrentfw.Futex.{Pc, outside, enter, owner, trylock_timeout}
use concurrentfw.Futex.Kernel.{Kernel}
use concurrentfw.Futex.System.{System, Step, call, mover, others_stay}
use concurrentfw.Futex.System
use concurrentfw.Futex.Exclusion.{mutual_exclusion}
use concurrentfw.TimeoutTest.{
  Stage, testing, locking, adding, detecting, reporting, leaving, unlocking, refused, finished,
  count_bits,
}

-- What a stage demands of the `Pc` of its thread.
abbrev pub Demands : Stage → Pc → Type 0
Demands testing p = p ≡ outside
Demands refused p = p ≡ outside
Demands finished p = p ≡ outside
Demands adding p = p ≡ owner
Demands (detecting v) p = p ≡ owner
Demands reporting p = p ≡ owner
Demands leaving p = p ≡ owner
Demands _ p = p ≡ p

-- The worker is counted in `inside`.
abbrev pub counted : Stage → Bool
counted (detecting v) = true
counted reporting = true
counted leaving = true
counted _ = false

counted-owner : (q : Stage) (p : Pc) → counted q ≡ true → Demands q p → p ≡ owner
counted-owner (detecting v) p e d = d
counted-owner reporting p e d = d
counted-owner leaving p e d = d
counted-owner testing p e d = absurd (cc)
counted-owner locking p e d = absurd (cc)
counted-owner adding p e d = absurd (cc)
counted-owner unlocking p e d = absurd (cc)
counted-owner refused p e d = absurd (cc)
counted-owner finished p e d = absurd (cc)

-- The futex, and the workers.
pub record Guarded {k : Kernel} (futex : System k) (worker : ℕ → Stage) : Type 0 where
  pub reach : System.Reach k false futex
  pub placed : (i : ℕ) → Demands (worker i) (futex.pc i)

-- The shared numbers.
pub record Tally (worker : ℕ → Stage) (inside detector : ℕ) (test_locked : Bool) : Type 0 where
  pub someone : (i : ℕ) → counted (worker i) ≡ true → inside ≡ 1
  pub nobody : ((i : ℕ) → counted (worker i) ≡ false) → inside ≡ 0
  pub fetched : (i v : ℕ) → worker i ≡ detecting v → v ≡ 1
  pub at_most_one : (detector ≡ 0) ⊎ (detector ≡ 1)
  pub detected : (i : ℕ) → worker i ≡ reporting → detector ≡ 1
  pub reported : test_locked ≡ true → detector ≡ 1

module _ {k : Kernel} {futex : System k} {worker : ℕ → Stage} (inv : Guarded futex worker)
    (i : ℕ) where
  open inv use {reach, placed}

  pub demanded : (stage : Stage) → worker i ≡ stage → Demands stage (futex.pc i)
  demanded stage is = subst (λ q. Demands q (futex.pc i)) is (placed i)

  -- Nobody else is counted while the thread owns the futex.
  pub alone : futex.pc i ≡ owner → (j : ℕ) → i ≢ j → counted (worker j) ≡ false
  alone own j ne = elim (Bool-cases (counted (worker j))) [
    | inl yes_counted ↦
        let own' = counted-owner (worker j) (futex.pc j) yes_counted (placed j) in
        absurd (ne (mutual_exclusion reach i j (ground (arith, own)) (ground (arith, own'))))
    | inr not_counted ↦ not_counted
  ]

  pub stage-Guarded : (q : Stage) → Demands q (futex.pc i) → Guarded futex (update worker i q)
  stage-Guarded q d = record {
    reach = reach;
    placed = update_all (λ j q. Demands q (futex.pc j)) i q (λ j _. placed j) d;
  }

  pub calls-Guarded :
      worker i ≡ testing
      → Guarded
          (record futex { pc = update futex.pc i (enter trylock_timeout) })
          (update worker i locking)
  calls-Guarded is = record {
    reach = System.later reach (call i trylock_timeout (demanded testing is));
    placed =
        update_both (λ j q p. Demands q p) i locking (enter trylock_timeout) (λ j _. placed j) refl;
  }

  pub moves-Guarded :
      {t : System k} (st : Step k futex t)
      → mover st ≡ i
      → (worker i ≡ locking) ⊎ (worker i ≡ unlocking)
      → Guarded t worker
  moves-Guarded {t} st by within = record {
    reach = System.later reach st;
    placed = λ j. elim (ℕ_discrete i j) [
      | yes e ↦
          subst (λ j. Demands (worker j) (t.pc j)) e
            (elim within [ inl is ↦ rw is refl | inr is ↦ rw is refl ])
      | no ne ↦
          subst (Demands (worker j)) (sym (others_stay st j (λ e. ne (sym by ∙ e)))) (placed j)
    ];
  }

module _ {worker : ℕ → Stage} {inside detector : ℕ} {test_locked : Bool}
    (inv : Tally worker inside detector test_locked) (i : ℕ) where
  open inv use {someone, nobody, fetched, at_most_one, detected, reported}

  -- A worker goes on without being counted.
  pub quiet-Tally :
      (q q' : Stage)
      → worker i ≡ q
      → counted q ≡ false
      → counted q' ≡ false
      → Tally (update worker i q') inside detector test_locked
  quiet-Tally q q' is out out' = record {
    someone = λ j h. ground (arith, someone j);
    nobody = λ none_counted. nobody (λ j. ground (arith, none_counted j));
    fetched = λ j v e. ground (arith, fetched j v);
    at_most_one = at_most_one;
    detected = λ j e. ground (arith, detected j);
    reported = reported;
  }

  module _ (lone : (j : ℕ) → i ≢ j → counted (worker j) ≡ false) where
    all_quiet : counted (worker i) ≡ false → (j : ℕ) → counted (worker j) ≡ false
    all_quiet out j = elim (ℕ_discrete i j) [
      | yes e ↦ subst (λ j. counted (worker j) ≡ false) e out
      | no ne ↦ lone j ne
    ]

    -- It counts itself in an empty place.
    pub adds-Tally :
        worker i ≡ adding
        → Tally
            (update worker i (detecting (add_fetch count_bits 1 inside).1))
            (add_fetch count_bits 1 inside).0
            detector
            test_locked
    unfolding add_fetch
    adds-Tally is =
        let empty : inside ≡ 0 = nobody (all_quiet (ground arith)) in
        rw empty (record {
          someone = λ j h. refl;
          nobody = λ none_counted. absurd (ground (arith, none_counted i));
          fetched = λ j v e. ground (arith, fetched j v);
          at_most_one = at_most_one;
          detected = λ j e. ground (arith, detected j);
          reported = reported;
        })

    pub subtracts-Tally :
        worker i ≡ leaving
        → Tally (update worker i unlocking) (sub_fetch count_bits 1 inside).0 detector test_locked
    unfolding sub_fetch
    subtracts-Tally is =
        let one : inside ≡ 1 = someone i (ground arith) in
        rw one (record {
          someone = λ j h. absurd (ground (arith, lone j));
          nobody = λ _. refl;
          fetched = λ j v e. ground (arith, fetched j v);
          at_most_one = at_most_one;
          detected = λ j e. ground (arith, detected j);
          reported = reported;
        })

  pub detects-Tally :
      (v : ℕ)
      → worker i ≡ detecting v
      → Tally (update worker i reporting) inside (or_fetch v detector).0 test_locked
  unfolding or_fetch
  detects-Tally v is =
      let one : v ≡ 1 = fetched i v is in
      let now : bit_or detector v ≡ 1 = rw one (elim at_most_one [
        | inl zero_before ↦ rw zero_before refl
        | inr one_before ↦ rw one_before refl
      ]) in
      record {
        someone = λ j h. ground (arith, someone j, someone i);
        nobody = λ none_counted. absurd (ground (arith, none_counted i));
        fetched = λ j v e. ground (arith, fetched j v);
        at_most_one = inr now;
        detected = λ j e. now;
        reported = λ _. now;
      }

  pub reports-Tally : worker i ≡ reporting → Tally (update worker i leaving) inside detector true
  reports-Tally is = record {
    someone = λ j h. ground (arith, someone j, someone i);
    nobody = λ none_counted. absurd (ground (arith, none_counted i));
    fetched = λ j v e. ground (arith, fetched j v);
    at_most_one = at_most_one;
    detected = λ j e. detected i is;
    reported = λ _. detected i is;
  }
