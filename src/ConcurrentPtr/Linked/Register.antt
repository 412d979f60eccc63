-- ===== src/ConcurrentPtr/Linked/Register.antt =====
-- The class `Concurrent_Ptr` (src/concurrentfw/concurrent_ptr.hpp) is an atomic register that publishes
-- what its pointers point to, on LLSC too.
use concurrentfw.Prelude.{
  ℕ, ◌≡◌, refl, ◌∙◌, true, some, List, update_all, inl, inr, Bool-cases, arith,
}
use concurrentfw.Atomic.Views.{Includes, carried}
use concurrentfw.Arm.Orders
use concurrentfw.Arm.Orders.{Version}
use concurrentfw.Arm.Orders.Handover.{store_passes_on, store_refused, store_keeps, load_keeps}
use concurrentfw.AbaWrapper.Llsc
use concurrentfw.AbaWrapper.Publication.{Views, at_start, publishes, Carries, acquired}
use concurrentfw.ConcurrentPtr.Shared.{Event, got}
use concurrentfw.ConcurrentPtr.Shared.Register.{perform, replay, replay-append}
use concurrentfw.ConcurrentPtr.Linked.{
  Memory, Pc, idle, set_start, set_linked, get_start, run, processor, proceeds, observe, Reach,
  start, call_set, call_get, clear, access, learned,
}

module _ (i : ℕ) (m : Memory) where
  set-perform :
      (ptr : ℕ)
      → perform (run i m (set_linked ptr)).2 m.word ≡ some (run i m (set_linked ptr)).0.word
  unfolding perform run
  set-perform ptr = elim (Bool-cases (m.reserved i)) [
    | inl set ↦ rw set refl
    | inr not_set ↦ rw not_set refl
  ]

  run-perform : (p : Pc) → perform (run i m p).2 m.word ≡ some (run i m p).0.word
  unfolding perform run
  run-perform idle = refl
  run-perform (set_start ptr) = refl
  run-perform get_start = ground arith
  run-perform (set_linked ptr) = set-perform ptr

  got_word : (p : Pc) (ptr : ℕ) → (run i m p).2 ≡ got ptr → ptr ≡ m.word
  unfolding run
  got_word idle ptr e = cc
  got_word (set_start q) ptr e = cc
  got_word get_start ptr e = ground (arith, e)
  got_word (set_linked q) ptr e = absurd (ground (arith, e))

  module _ (version : Version) (v : Views) where
    publishing-Carries :
        (ptr : ℕ)
        → m.reserved i ≡ true
        → Carries v
        → Carries (
            proceeds i
              (Orders.atomic_exclusive_store_release version i ptr (processor i m v)).0
              (publishes i ptr v))
    publishing-Carries ptr r c =
        update_all
          (λ _ known.
            Includes
              (carried
                (Orders.atomic_exclusive_store_release version i ptr (processor i m v)).0.message)
              known)
          ptr (v.thread i).current
          (λ b _ e h. store_keeps version i ptr (processor i m v) e (c b e h))
          (store_passes_on version i ptr (processor i m v) r).2

    observe-Carries : (p : Pc) → Carries v → Carries (observe version i m p v)
    unfolding observe
    observe-Carries idle c = c
    observe-Carries get_start c = c
    observe-Carries (set_start ptr) c = λ b e h. rw (load_keeps version (processor i m v)) (c b e h)
    observe-Carries (set_linked ptr) c = elim (Bool-cases (m.reserved i)) [
      | inl set ↦
          rw ((store_passes_on version i ptr (processor i m v) set).0)
            (publishing-Carries ptr set c)
      | inr not_set ↦
          rw (store_refused version i ptr (processor i m v) not_set)
            (λ b e h. store_keeps version i ptr (processor i m v) e (c b e h))
    ]

    got-acquires :
        (p : Pc) (ptr : ℕ)
        → (run i m p).2 ≡ got ptr
        → Includes ((observe version i m p v).thread i).current (carried v.message)
    unfolding run observe
    got-acquires idle ptr e = cc
    got-acquires (set_start q) ptr e = cc
    got-acquires get_start ptr e = acquired i v.thread v.message
    got-acquires (set_linked q) ptr e = absurd (ground (arith, e))

module _ {version : Version} {init : ℕ} where
  Reach-Carries :
      {es : List Event} {m : Memory} {pc : ℕ → Pc} {v : Views}
      → Reach version init es m pc v
      → Carries v
  unfolding at_start
  Reach-Carries start = λ b e h. cc
  Reach-Carries (call_set r i ptr e) = Reach-Carries r
  Reach-Carries (call_get r i e) = Reach-Carries r
  Reach-Carries (clear r i) = Reach-Carries r
  Reach-Carries (access {m = m} {pc = pc} {v = v} r i) =
      observe-Carries i m version v (pc i) (Reach-Carries r)
  Reach-Carries (learned r i e) = Reach-Carries r

  Reach-register :
      {es : List Event} {m : Memory} {pc : ℕ → Pc} {v : Views}
      → Reach version init es m pc v
      → replay es (some init) ≡ some m.word
  unfolding replay Llsc.construct
  Reach-register start = refl
  Reach-register (call_set r i ptr e) = Reach-register r
  Reach-register (call_get r i e) = Reach-register r
  Reach-register (clear r i) = Reach-register r
  Reach-register (access {es = es} {m = m} {pc = pc} r i) =
      replay-append es (run i m (pc i)).2 (some init) m.word (Reach-register r)
      ∙ run-perform i m (pc i)
  Reach-register (learned r i e) = Reach-register r

  -- On LLSC, with the code for ARMv7 and that for ARMv8: in every run of any number of threads, an
  -- access by which `get` returns a pointer returns the one that an atomic register holds after the
  -- history of what was set and got so far, and leaves its thread with all that the thread which last
  -- set that pointer knew when it did.
  pub linked_pointer :
      {es : List Event} {m : Memory} {pc : ℕ → Pc} {v : Views}
      → Reach version init es m pc v
      → (i ptr : ℕ) → (run i m (pc i)).2 ≡ got ptr
      → (replay es (some init) ≡ some ptr)
        × Includes ((observe version i m (pc i) v).thread i).current (v.published ptr)
  linked_pointer {m} {pc} {v} r i ptr gets = (
    rw (got_word i m (pc i) ptr gets) (Reach-register r),
    λ e h. got-acquires i m version v (pc i) ptr gets e (Reach-Carries r ptr e h),
  )
