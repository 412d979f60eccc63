-- ===== src/Futex/Publication/Visible.antt =====
-- What the owner of the futex sees (src/concurrentfw/futex.hpp, src/futex.cpp).
use concurrentfw.Prelude.{
  ℕ, ◌+◌, ◌<◌, ◌≡◌, refl, ◌≢◌, ◌⊎◌, inl, inr, Bool, true, ◌==◌, update, update_both, update_all,
  arith, Bool-cases,
}
use concurrentfw.Atomic.Order.{MemoryOrder, release}
use concurrentfw.Atomic.Views.{Standard, cpp17, Message, releases, store, modify}
use concurrentfw.Futex.{
  Pc, outside, enter, first_exchange, next_exchange, about_to_wait, waiting, owner, wake_store,
  wake_call, thrown, run, holds, after_compare,
}
use concurrentfw.Futex.Kernel.{Kernel}
use concurrentfw.Futex.System.{access, call, recover, wait_returns, wait_blocks, wait_ends, wake}
use concurrentfw.Futex.System
use concurrentfw.Futex.Exclusion.{Reach-IsExclusive}
use concurrentfw.Futex.Exclusion.Moves.{
  IsExclusive, holds-after_wait, holds-after_wake, holds-after_compare,
}
use concurrentfw.Futex.Publication.{
  Views, at_start, modified, touched, observe, effect, Reach, Reach-Reach, start, moves, touches,
}
use concurrentfw.Futex.Publication.Invariant.{
  IsPublished, Ready, Ready-quiet, quiet-IsPublished, load-IsPublished, take-IsPublished,
  carried-modify, carried-store,
}

module _ {std : Standard} {o : MemoryOrder} (strong : (std ≡ cpp17) ⊎ (releases o ≡ true)) where
  module _ {value : ℕ} {pc : ℕ → Pc} {v : Views} (inv : IsPublished std o value pc v)
      (ex : IsExclusive value pc) (i : ℕ) (own : holds (pc i) ≡ true) where
    open inv use {free, ready}
    open ex use {unique}

    others-quiet :
        (message : Message) (n j : ℕ) → i ≢ j → Ready std o message n j (pc j) (v.thread j)
    others-quiet message n j ne =
        Ready-quiet message n j (pc j) (v.thread j) (elim (Bool-cases (holds (pc j))) [
          | inl h ↦ absurd (ne (unique i j own h))
          | inr out ↦ out
        ])

    -- The access of `unlock`.
    unlock-IsPublished :
        pc i ≡ owner
        → IsPublished std o
            (run value owner).0
            (update pc i (run value owner).1)
            (modified i release v)
    unfolding run
    unlock-IsPublished e = record {
      free = λ _. carried-modify i v.writes (v.thread i) v.message ((ready i).knows e);
      ready =
          update_both (Ready std o (modify i release (v.thread i) v.message).1 v.writes) i _ _
            (others-quiet _ v.writes)
            (record {
              knows = λ out. absurd (ground (arith, out));
              passes = λ _.
                  carried-store std o i v.writes (v.thread i) v.message strong ((ready i).knows e);
            });
    }

    -- The store of `wake`.
    wake-IsPublished :
        pc i ≡ wake_store
        → IsPublished std o 0
            (update pc i wake_call)
            (record v { message = store std i o (v.thread i) v.message })
    wake-IsPublished e = record {
      free = λ _. (ready i).passes e;
      ready =
          update_all
            (λ j p. Ready std o (store std i o (v.thread i) v.message) v.writes j p (v.thread j)) i
            wake_call (others-quiet _ v.writes)
            (Ready-quiet _ v.writes i wake_call (v.thread i) refl);
    }

    -- A write to the data.
    touched-IsPublished : pc i ≡ owner → IsPublished std o value pc (touched i v)
    touched-IsPublished e = record {
      free = λ z. absurd (ground (arith, ex.free z i, own));
      ready =
          update_all (λ j t. Ready std o v.message (v.writes + 1) j (pc j) t) i _
            (others-quiet v.message (v.writes + 1))
            (record {
              knows = λ _ n lt. ground (arith, (ready i).knows e n);
              passes = λ w. absurd (ground (arith, w, e));
            });
    }

  module _ {value : ℕ} {pc : ℕ → Pc} {v : Views} (inv : IsPublished std o value pc v)
      (ex : IsExclusive value pc) (i : ℕ) where
    run-IsPublished :
        (p : Pc)
        → pc i ≡ p
        → IsPublished std o
            (run value p).0
            (update pc i (run value p).1)
            (observe std o i value p v)
    unfolding run observe
    run-IsPublished (enter c) e = elim (Bool-cases (value == 0)) [
      | inl z ↦
          rw (z)
            (take-IsPublished inv i (after_compare c (true, value)) 1 (omega arith) (ground arith))
      | inr n ↦ rw (n) (load-IsPublished inv i _ _ (holds-after_compare c value (ground arith)))
    ]
    run-IsPublished (first_exchange c) e = take-IsPublished inv i _ 2 (omega arith) (ground arith)
    run-IsPublished (next_exchange c) e = take-IsPublished inv i _ 2 (omega arith) (ground arith)
    run-IsPublished owner e = unlock-IsPublished inv ex i (ground arith) e
    run-IsPublished wake_store e = wake-IsPublished inv ex i (ground arith) e
    run-IsPublished outside e = quiet-IsPublished inv i _ refl
    run-IsPublished (about_to_wait c) e = quiet-IsPublished inv i _ refl
    run-IsPublished (waiting c) e = quiet-IsPublished inv i _ refl
    run-IsPublished wake_call e = quiet-IsPublished inv i _ refl
    run-IsPublished thrown e = quiet-IsPublished inv i _ refl

  init-IsPublished :
      (k : Kernel) (locked : Bool)
      → IsPublished std o (System.init k locked).value (System.init k locked).pc at_start
  unfolding at_start
  init-IsPublished k locked = record {
    free = λ _ e lt. absurd (omega arith);
    ready = λ j. record {
      knows = λ _ e lt. absurd (omega arith);
      passes = λ _ e lt. absurd (omega arith);
    };
  }

  module _ {k : Kernel} where
    Step-IsPublished :
        {s t : System.System k} {v : Views} (st : System.Step k s t)
        → IsExclusive s.value s.pc
        → IsPublished std o s.value s.pc v
        → IsPublished std o t.value t.pc (effect std o st v)
    unfolding effect
    Step-IsPublished (call i c e) ex inv = quiet-IsPublished inv i _ refl
    Step-IsPublished (recover i e) ex inv = quiet-IsPublished inv i _ refl
    Step-IsPublished (access i) ex inv = run-IsPublished inv ex i _ refl
    Step-IsPublished (wait_returns i c {a} e r) ex inv =
        quiet-IsPublished inv i _ (holds-after_wait c a)
    Step-IsPublished (wait_blocks i c e b) ex inv = quiet-IsPublished inv i _ refl
    Step-IsPublished (wait_ends i c {a} e r) ex inv =
        quiet-IsPublished inv i _ (holds-after_wait c a)
    Step-IsPublished (wake i {a} e w) ex inv = quiet-IsPublished inv i _ (holds-after_wake a)

    Reach-IsPublished :
        {locked : Bool} {s : System.System k} {v : Views}
        → Reach std o locked s v
        → IsPublished std o s.value s.pc v
    Reach-IsPublished {locked} start = init-IsPublished k locked
    Reach-IsPublished (moves r st) =
        Step-IsPublished st (Reach-IsExclusive (Reach-Reach std o r)) (Reach-IsPublished r)
    Reach-IsPublished {s} (touches r i e) =
        touched-IsPublished (Reach-IsPublished r) (Reach-IsExclusive (Reach-Reach std o r)) i
          (ground arith) e

    -- In every reachable state, whatever the kernel answers, a thread that owns the futex sees all
    -- the writes so far that were made by owners of the futex, provided that the standard is one
    -- before C++20 or the store in `wake` is a release.
    pub owner_sees :
        {locked : Bool} {s : System.System k} {v : Views}
        → Reach std o locked s v
        → (i : ℕ) → s.pc i ≡ owner
        → (e : ℕ) → e < v.writes
        → (v.thread i).current e ≡ true
    owner_sees r i own = ((Reach-IsPublished r).ready i).knows own
