-- ===== src/ConcurrentPtr/Shared/Register.antt =====
-- The class `Concurrent_Ptr` (src/concurrentfw/concurrent_ptr.hpp) is an atomic register that publishes
-- what its pointers point to.
use concurrentfw.Prelude.{
  ℕ, ◌≡◌, refl, ◌∙◌, true, false, Option, none, some, List, [], ◌∷◌, ◌++◌, ◌==◌, if◌then◌else◌, inl,
  inr, Bool-cases, arith,
}
use concurrentfw.Atomic.Views.{Includes, load, modify, carried}
use concurrentfw.AbaWrapper.{Content, same}
use concurrentfw.AbaWrapper.Dwcas
use concurrentfw.AbaWrapper.Publication.{Views, at_start, Carries, acquired, publishing-Carries}
use concurrentfw.ConcurrentPtr.Shared.{
  Pc, idle, set_start, set_cached, get_start, Event, silent, stored, got, run, observe, Reach,
  start, call_set, call_get, access, learned,
}

-- The register, as a machine that refuses an event which it cannot make.
unfoldable pub perform : Event → ℕ → Option ℕ
perform silent x = some x
perform (stored p) x = some p
perform (got p) x = if p == x then some x else none

unfoldable pub replay : List Event → Option ℕ → Option ℕ
replay [] x = x
replay (e ∷ es) none = none
replay (e ∷ es) (some x) = replay es (perform e x)

pub replay-append :
    (es : List Event) (e : Event) (o : Option ℕ) (x : ℕ)
    → replay es o ≡ some x
    → replay (es ++ e ∷ []) o ≡ perform e x
unfolding replay
replay-append [] e o x h = rw h refl
replay-append (d ∷ es) e none x h = cc
replay-append (d ∷ es) e (some y) x h = replay-append es e (perform d y) x h

module _ (w : ℕ) (m : Content) where
  set_hit :
      (ptr : ℕ) (cache : Content)
      → same m cache ≡ true
      → run w m (set_cached ptr cache) ≡ (Dwcas.next w cache ptr, idle, stored ptr)
  unfolding run
  set_hit ptr cache hit = ground arith

  set_miss :
      (ptr : ℕ) (cache : Content)
      → same m cache ≡ false
      → run w m (set_cached ptr cache) ≡ (m, set_cached ptr m, silent)
  unfolding run
  set_miss ptr cache miss = ground arith

  set-perform :
      (ptr : ℕ) (cache : Content)
      → perform (run w m (set_cached ptr cache)).2 m.value
        ≡ some (run w m (set_cached ptr cache)).0.value
  unfolding perform Dwcas.next
  set-perform ptr cache = elim (Bool-cases (same m cache)) [
    | inl hit ↦ rw (set_hit ptr cache hit) refl
    | inr miss ↦ rw (set_miss ptr cache miss) refl
  ]

  run-perform : (p : Pc) → perform (run w m p).2 m.value ≡ some (run w m p).0.value
  unfolding perform run
  run-perform idle = refl
  run-perform (set_start ptr) = refl
  run-perform get_start = ground arith
  run-perform (set_cached ptr cache) = set-perform ptr cache

  got_value : (p : Pc) (ptr : ℕ) → (run w m p).2 ≡ got ptr → ptr ≡ m.value
  unfolding run
  got_value idle ptr e = cc
  got_value (set_start q) ptr e = cc
  got_value get_start ptr e = ground (arith, e)
  got_value (set_cached q cache) ptr e = absurd (ground (arith, e))

observe-Carries : (i : ℕ) (m : Content) (p : Pc) (v : Views) → Carries v → Carries (observe i m p v)
unfolding observe
observe-Carries i m idle v c = c
observe-Carries i m (set_start ptr) v c = c
observe-Carries i m get_start v c = c
observe-Carries i m (set_cached ptr cache) v c = elim (Bool-cases (same m cache)) [
  | inl hit ↦ rw hit (publishing-Carries i ptr v c)
  | inr miss ↦ rw miss c
]

got-acquires :
    (w i : ℕ) (m : Content) (p : Pc) (v : Views) (ptr : ℕ)
    → (run w m p).2 ≡ got ptr
    → Includes ((observe i m p v).thread i).current (carried v.message)
unfolding run observe modify load
got-acquires w i m idle v ptr e = cc
got-acquires w i m (set_start q) v ptr e = cc
got-acquires w i m get_start v ptr e = acquired i v.thread v.message
got-acquires w i m (set_cached q cache) v ptr e = elim (Bool-cases (same m cache)) [
  | inl hit ↦ rw hit (acquired i v.thread v.message)
  | inr miss ↦ rw miss (acquired i v.thread v.message)
]

module _ {w init : ℕ} where
  Reach-Carries :
      {es : List Event} {m : Content} {pc : ℕ → Pc} {v : Views} → Reach w init es m pc v → Carries v
  unfolding at_start
  Reach-Carries start = λ b e h. cc
  Reach-Carries (call_set r i ptr e) = Reach-Carries r
  Reach-Carries (call_get r i e) = Reach-Carries r
  Reach-Carries (access {m = m} {pc = pc} {v = v} r i) =
      observe-Carries i m (pc i) v (Reach-Carries r)
  Reach-Carries (learned r i e) = Reach-Carries r

  Reach-register :
      {es : List Event} {m : Content} {pc : ℕ → Pc} {v : Views}
      → Reach w init es m pc v
      → replay es (some init) ≡ some m.value
  unfolding replay Dwcas.construct
  Reach-register start = refl
  Reach-register (call_set r i ptr e) = Reach-register r
  Reach-register (call_get r i e) = Reach-register r
  Reach-register (access {es = es} {m = m} {pc = pc} r i) =
      replay-append es (run w m (pc i)).2 (some init) m.value (Reach-register r)
      ∙ run-perform w m (pc i)
  Reach-register (learned r i e) = Reach-register r

  -- In every run of any number of threads, an access by which `get` returns a pointer returns the one
  -- that an atomic register holds after the history of what was set and got so far, and leaves its
  -- thread with all that the thread which last set that pointer knew when it did.
  pub shared_pointer :
      {es : List Event} {m : Content} {pc : ℕ → Pc} {v : Views}
      → Reach w init es m pc v
      → (i ptr : ℕ) → (run w m (pc i)).2 ≡ got ptr
      → (replay es (some init) ≡ some ptr)
        × Includes ((observe i m (pc i) v).thread i).current (v.published ptr)
  shared_pointer {m} {pc} {v} r i ptr gets = (
    rw (got_value w m (pc i) ptr gets) (Reach-register r),
    λ e h. got-acquires w i m (pc i) v ptr gets e (Reach-Carries r ptr e h),
  )
