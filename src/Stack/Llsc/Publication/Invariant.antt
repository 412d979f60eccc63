-- ===== src/Stack/Llsc/Publication/Invariant.antt =====
-- What the wrapper and the processors know of what was published with the blocks, on LLSC
-- (src/stack.cpp).
use concurrentfw.Prelude.{
  ℕ, not, ◌≡◌, refl, Bool, true, false, ◌==◌, update, update_all, update_both, Bool-cases, inl, inr,
}
use concurrentfw.Atomic.Views.{Includes, Thread, carried}
use concurrentfw.Arm.{atomic_exclusive_abort}
use concurrentfw.Arm.Orders.{Version, atomic_exclusive_load_aquire, atomic_exclusive_store_release}
use concurrentfw.Arm.Orders.Handover.{
  store_passes_on, store_refused, store_keeps, load_keeps, load_acquires,
}
use concurrentfw.Stack.{Block, null}
use concurrentfw.AbaWrapper.Publication.{Views, publishes}
use concurrentfw.Stack.Llsc.{
  Memory, Pc, idle, rejected, push_start, push_cached, push_linked, pop_start, pop_cached, pop_read,
  run,
}
use concurrentfw.Stack.Llsc.Publication.{processor, proceeds, observe}

-- The wrapper carries what was published with each block, and so does a processor whose monitor is
-- set.
pub record IsSeen (reserved : ℕ → Bool) (v : Views) : Type 0 where
  pub carries : (b : Block) → Includes (carried v.message) (v.published b)
  pub watching :
      (j : ℕ) → reserved j ≡ true → (b : Block) → Includes (v.thread j).current (v.published b)

module _ (m : Memory) (i : ℕ) where
  -- The monitors after an access to the wrapper.
  push_reserved_set :
      (block cache : ℕ)
      → m.reserved i ≡ true
      → (run i m (push_linked block cache)).0.reserved ≡ (λ _. false)
  unfolding run
  push_reserved_set block cache r = rw r refl

  push_reserved :
      (block cache : ℕ)
      → m.reserved i ≡ false
      → (run i m (push_linked block cache)).0.reserved ≡ update m.reserved i false
  unfolding run
  push_reserved block cache r = rw r refl

  pop_reserved_set :
      (cache below : ℕ)
      → m.reserved i ≡ true
      → (run i m (pop_read cache below)).0.reserved ≡ (λ _. false)
  unfolding run
  pop_reserved_set cache below r = rw r refl

  pop_reserved :
      (cache below : ℕ)
      → m.reserved i ≡ false
      → (run i m (pop_read cache below)).0.reserved ≡ update m.reserved i false
  unfolding run
  pop_reserved cache below r = rw r refl

  pop_start_reserved :
      (b : Bool)
      → (m.stack == null) ≡ b
      → (run i m pop_start).0.reserved ≡ update m.reserved i (not b)
  unfolding run atomic_exclusive_abort
  pop_start_reserved true e = rw e refl
  pop_start_reserved false e = rw e refl

module _ (version : Version) (m : Memory) {v : Views} (inv : IsSeen m.reserved v) (i : ℕ) where
  open inv use {carries, watching}

  abbrev Watches : ℕ → Bool → Thread → Type 0
  Watches j r t = r ≡ true → (b : Block) → Includes t.current (v.published b)

  -- An exclusive load.
  load-IsSeen :
      (r : Bool)
      → IsSeen
          (update m.reserved i r)
          (proceeds i (atomic_exclusive_load_aquire version (processor i m v)).0 v)
  load-IsSeen r = record {
    carries = λ b e h. rw (load_keeps version (processor i m v)) (carries b e h);
    watching =
        update_both Watches i r (atomic_exclusive_load_aquire version (processor i m v)).0.thread
          (λ j _. watching j)
          (λ _ b e h. (load_acquires version (processor i m v)).1 e (carries b e h));
  }

  -- An exclusive store that does not take place.
  fail-IsSeen :
      (value : ℕ)
      → IsSeen
          (update m.reserved i false)
          (proceeds i (atomic_exclusive_store_release version i value (processor i m v)).0 v)
  fail-IsSeen value = record {
    carries = λ b e h. store_keeps version i value (processor i m v) e (carries b e h);
    watching =
        update_both Watches i false
          (atomic_exclusive_store_release version i value (processor i m v)).0.thread
          (λ j _. watching j) (λ no. cc);
  }

  -- One that does.
  store-IsSeen :
      (value : ℕ)
      → IsSeen
          (λ _. false)
          (proceeds i (atomic_exclusive_store_release version i value (processor i m v)).0 v)
  store-IsSeen value = record {
    carries = λ b e h. store_keeps version i value (processor i m v) e (carries b e h);
    watching = λ j h. cc;
  }

  publish-IsSeen :
      (block : Block)
      → m.reserved i ≡ true
      → IsSeen
          (λ _. false)
          (proceeds i
            (atomic_exclusive_store_release version i block (processor i m v)).0
            (publishes i block v))
  publish-IsSeen block r = record {
    carries =
        update_all
          (λ _ known.
            Includes
              (carried (atomic_exclusive_store_release version i block (processor i m v)).0.message)
              known)
          block (v.thread i).current
          (λ b _ e h. store_keeps version i block (processor i m v) e (carries b e h))
          (store_passes_on version i block (processor i m v) r).2;
    watching = λ j h. cc;
  }

  push_published :
      (block cache : ℕ)
      → m.reserved i ≡ true
      → observe version i m (push_linked block cache) v
        ≡ proceeds i
            (atomic_exclusive_store_release version i block (processor i m v)).0
            (publishes i block v)
  unfolding observe
  push_published block cache r = rw (store_passes_on version i block (processor i m v) r).0 refl

  push_refused :
      (block cache : ℕ)
      → m.reserved i ≡ false
      → observe version i m (push_linked block cache) v
        ≡ proceeds i (atomic_exclusive_store_release version i block (processor i m v)).0 v
  unfolding observe
  push_refused block cache r = rw (store_refused version i block (processor i m v) r) refl

  push-IsSeen :
      (block cache : ℕ)
      → IsSeen
          (run i m (push_linked block cache)).0.reserved
          (observe version i m (push_linked block cache) v)
  push-IsSeen block cache = elim (Bool-cases (m.reserved i)) [
    | inl set ↦
        rw (push_reserved_set m i block cache set, push_published block cache set)
          (publish-IsSeen block set)
    | inr not_set ↦
        rw (push_reserved m i block cache not_set, push_refused block cache not_set)
          (fail-IsSeen block)
  ]

  pop-IsSeen :
      (cache below : ℕ)
      → IsSeen
          (run i m (pop_read cache below)).0.reserved
          (observe version i m (pop_read cache below) v)
  unfolding observe
  pop-IsSeen cache below = elim (Bool-cases (m.reserved i)) [
    | inl set ↦ rw (pop_reserved_set m i cache below set) (store-IsSeen below)
    | inr not_set ↦ rw (pop_reserved m i cache below not_set) (fail-IsSeen below)
  ]

  found-IsSeen : IsSeen (run i m pop_start).0.reserved (observe version i m pop_start v)
  unfolding observe
  found-IsSeen = elim (Bool-cases (m.stack == null)) [
    | inl empty ↦ rw (pop_start_reserved m i true empty) (load-IsSeen false)
    | inr some_left ↦ rw (pop_start_reserved m i false some_left) (load-IsSeen true)
  ]

  pub run-IsSeen : (p : Pc) → IsSeen (run i m p).0.reserved (observe version i m p v)
  unfolding run observe
  run-IsSeen (push_start block) = load-IsSeen true
  run-IsSeen pop_start = found-IsSeen
  run-IsSeen (push_linked block cache) = push-IsSeen block cache
  run-IsSeen (pop_read cache below) = pop-IsSeen cache below
  run-IsSeen idle = inv
  run-IsSeen rejected = inv
  run-IsSeen (push_cached block cache) = inv
  run-IsSeen (pop_cached cache) = inv
