-- ===== src/TimeoutTest/Detector.antt =====
-- The check of `detector` at the end of "check multiple timeout Futex locks" (src/tests/test_futex.cpp).
use concurrentfw.Prelude.{◌≡◌, refl, inl, inr, true}
use concurrentfw.Futex.Kernel.{Kernel}
use concurrentfw.Futex.System
use concurrentfw.TimeoutTest.{
  testing, locking, adding, detecting, reporting, leaving, unlocking, refused, finished, Test, Move,
  stops, ends, calls, moves, enters, gives_up, reports_timeout, adds, detects, reports_locked,
  subtracts, unlocked, Reach, start, later, prepared,
}
use concurrentfw.TimeoutTest.Invariant.{
  Guarded, Tally, demanded, alone, stage-Guarded, calls-Guarded, moves-Guarded, quiet-Tally,
  adds-Tally, subtracts-Tally, detects-Tally, reports-Tally,
}

module _ {k : Kernel} where
  record InOrder (s : Test k) : Type 0 where
    guarded : Guarded s.futex s.worker
    tally : Tally s.worker s.inside s.detector s.test_locked

  Move-InOrder : {s t : Test k} → Move k s t → InOrder s → InOrder t
  Move-InOrder stops inv = record { guarded = inv.guarded; tally = inv.tally }
  Move-InOrder (ends i is _) inv = record {
    guarded = stage-Guarded inv.guarded i finished (demanded inv.guarded i testing is);
    tally = quiet-Tally inv.tally i testing finished is refl refl;
  }
  Move-InOrder (calls i is _) inv = record {
    guarded = calls-Guarded inv.guarded i is;
    tally = quiet-Tally inv.tally i testing locking is refl refl;
  }
  Move-InOrder (moves i inside st by _) inv = record {
    guarded =
        moves-Guarded inv.guarded i st by (elim inside [ inl (is, _) ↦ inl is | inr is ↦ inr is ]);
    tally = inv.tally;
  }
  Move-InOrder (enters i is own) inv = record {
    guarded = stage-Guarded inv.guarded i adding own;
    tally = quiet-Tally inv.tally i locking adding is refl refl;
  }
  Move-InOrder (gives_up i is out) inv = record {
    guarded = stage-Guarded inv.guarded i refused out;
    tally = quiet-Tally inv.tally i locking refused is refl refl;
  }
  Move-InOrder (reports_timeout i is) inv = record {
    guarded = stage-Guarded inv.guarded i testing (demanded inv.guarded i refused is);
    tally = quiet-Tally inv.tally i refused testing is refl refl;
  }
  Move-InOrder (adds i is) inv =
      let own = demanded inv.guarded i adding is in
      record {
        guarded = stage-Guarded inv.guarded i _ own;
        tally = adds-Tally inv.tally i (alone inv.guarded i own) is;
      }
  Move-InOrder (detects i v is) inv = record {
    guarded = stage-Guarded inv.guarded i reporting (demanded inv.guarded i (detecting v) is);
    tally = detects-Tally inv.tally i v is;
  }
  Move-InOrder (reports_locked i is) inv = record {
    guarded = stage-Guarded inv.guarded i leaving (demanded inv.guarded i reporting is);
    tally = reports-Tally inv.tally i is;
  }
  Move-InOrder (subtracts i is) inv = record {
    guarded = stage-Guarded inv.guarded i unlocking refl;
    tally =
        subtracts-Tally inv.tally i (alone inv.guarded i (demanded inv.guarded i leaving is)) is;
  }
  Move-InOrder (unlocked i is out) inv = record {
    guarded = stage-Guarded inv.guarded i testing out;
    tally = quiet-Tally inv.tally i unlocking testing is refl refl;
  }

  Reach-InOrder : {s : Test k} → Reach k s → InOrder s
  unfolding prepared System.init
  Reach-InOrder start = record {
    guarded = record { reach = System.start; placed = λ i. refl };
    tally = record {
      someone = λ i h. absurd (cc);
      nobody = λ _. refl;
      fetched = λ i v e. absurd (cc);
      at_most_one = inl refl;
      detected = λ i e. absurd (cc);
      reported = λ h. absurd (cc);
    };
  }
  Reach-InOrder (later r st) = Move-InOrder st (Reach-InOrder r)

  -- In every reachable state of the test, with any number of threads and whatever the kernel answers:
  -- once `test_locked` is set, `detector` is 1, so that no thread has ever found another one behind the
  -- futex.
  pub detector_lem : {s : Test k} → Reach k s → s.test_locked ≡ true → s.detector ≡ 1
  detector_lem r h = (Reach-InOrder r).tally.reported h
