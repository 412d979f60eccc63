-- ===== src/Futex/Publication/Stale.antt =====
-- The relaxed store in `wake` (src/futex.cpp) since C++20.
use concurrentfw.Prelude.{
  ℕ, ◌<◌, ◌≡◌, refl, ◌≢◌, inl, inr, Bool, false, [], ◌∷◌, ◌==◌, update, update_self, update_ne,
  update_all, arith, Bool-cases,
}
use concurrentfw.Atomic.Order.{MemoryOrder, acquire, release}
use concurrentfw.Atomic.Views.{
  Standard, cpp20, Thread, Head, carried, continued, head, store, modify, load,
}
use concurrentfw.Futex.{
  Call, Pc, outside, enter, first_exchange, next_exchange, about_to_wait, waiting, owner,
  wake_store, wake_call, thrown, run,
}
use concurrentfw.Futex.Kernel.{Kernel}
use concurrentfw.Futex.System.{access, call, recover, wait_returns, wait_blocks, wait_ends, wake}
use concurrentfw.Futex.System
use concurrentfw.Futex.Publication.{
  Views, wake_order, at_start, observe, effect, Reach, start, moves, touches,
}

-- No thread has made a release fence.
abbrev pub Unfenced : (ℕ → Thread) → Type 0
Unfenced thread = (j : ℕ) (e : ℕ) → (thread j).fenced e ≡ false

update-Unfenced :
    (thread : ℕ → Thread) (i : ℕ) (t : Thread)
    → Unfenced thread
    → t.fenced ≡ (thread i).fenced
    → Unfenced (update thread i t)
update-Unfenced thread i t un same =
    update_all (λ _ t. (e : ℕ) → t.fenced e ≡ false) i t (λ j _. un j) (λ e. rw same (un i e))

module _ (std : Standard) (o : MemoryOrder) where
  observe-Unfenced :
      (v : Views) (i value : ℕ) (p : Pc)
      → Unfenced v.thread
      → Unfenced (observe std o i value p v).thread
  unfolding observe modify load
  observe-Unfenced v i value (enter c) un = elim (Bool-cases (value == 0)) [
    | inl z ↦ rw z (update-Unfenced v.thread i _ un refl)
    | inr n ↦ rw n (update-Unfenced v.thread i _ un refl)
  ]
  observe-Unfenced v i value (first_exchange c) un = update-Unfenced v.thread i _ un refl
  observe-Unfenced v i value (next_exchange c) un = update-Unfenced v.thread i _ un refl
  observe-Unfenced v i value owner un = update-Unfenced v.thread i _ un refl
  observe-Unfenced v i value wake_store un = un
  observe-Unfenced v i value outside un = un
  observe-Unfenced v i value (about_to_wait c) un = un
  observe-Unfenced v i value (waiting c) un = un
  observe-Unfenced v i value wake_call un = un
  observe-Unfenced v i value thrown un = un

  module _ {k : Kernel} where
    effect-Unfenced :
        {s t : System.System k} (st : System.Step k s t) (v : Views)
        → Unfenced v.thread
        → Unfenced (effect std o st v).thread
    unfolding effect
    effect-Unfenced {s} (access i) v un = observe-Unfenced v i s.value (s.pc i) un
    effect-Unfenced (call i c e) v un = un
    effect-Unfenced (recover i e) v un = un
    effect-Unfenced (wait_returns i c e r) v un = un
    effect-Unfenced (wait_blocks i c e b) v un = un
    effect-Unfenced (wait_ends i c e r) v un = un
    effect-Unfenced (wake i e w) v un = un

    Reach-Unfenced :
        {locked : Bool} {s : System.System k} {v : Views}
        → Reach std o locked s v
        → Unfenced v.thread
    unfolding at_start
    Reach-Unfenced start = λ j e. refl
    Reach-Unfenced (moves r st) = effect-Unfenced st _ (Reach-Unfenced r)
    Reach-Unfenced (touches {v = v} r i e) = update-Unfenced v.thread i _ (Reach-Unfenced r) refl

    access-Reach :
        {locked : Bool} {s : System.System k} {v : Views}
        → Reach std o locked s v
        → (i value : ℕ) (p : Pc) → s.value ≡ value
        → s.pc i ≡ p
        → Reach std o locked
            (record s { value = (run value p).0; pc = update s.pc i (run value p).1 })
            (observe std o i value p v)
    unfolding effect
    access-Reach {s} {v} r i value p value_is pc_is = rw (← value_is, ← pc_is) (moves r (access i))

-- Thread `j` acquires a word that carries nothing new, after an operation of thread `i`.
acquire_nothing :
    (thread : ℕ → Thread) (i j : ℕ) (t : Thread) (h : Head) (e : ℕ)
    → i ≢ j
    → (thread j).current e ≡ false
    → h.view e ≡ false
    → (update (update thread i t) j (load acquire (h ∷ []) (update thread i t j)) j).current e
      ≡ false
unfolding load carried
acquire_nothing thread i j t h e ne unseen empty =
    rw
      (
        update_self (update thread i t) j (load acquire (h ∷ []) (update thread i t j)),
        update_ne thread i j t ne,
      )
      (ground arith)

module _ {k : Kernel} {locked : Bool} where
  -- From every state of the code as it is that is reached under C++20, in which a thread `i` owns
  -- the futex and is about to call `unlock`, the word is 2, and another thread `j` in `lock` or
  -- `trylock_timeout` is about to exchange: for every write `e` that `j` does not see yet, be it one of `i` as the owner, a state
  -- is reached in which `j` owns the futex and still does not see `e`.
  pub stale_owner :
      {s : System.System k} {v : Views}
      → Reach cpp20 wake_order locked s v
      → (i j : ℕ) (c : Call) → s.pc i ≡ owner
      → s.pc j ≡ next_exchange c
      → s.value ≡ 2
      → (e : ℕ) → e < v.writes
      → (v.thread j).current e ≡ false
      → (t : System.System k) × (v' : Views) × Reach cpp20 wake_order locked t v'
        × (e < v'.writes)
        × (t.pc j ≡ owner)
        × ((v'.thread j).current e ≡ false)
  unfolding run observe modify load store head continued
  stale_owner {s} {v} r i j c own next two e written unseen =
      let ne : i ≢ j = λ same. absurd (cc) in
      let r1 = access-Reach cpp20 wake_order r i 2 owner two own in
      let r2 =
        access-Reach cpp20 wake_order r1 i 1 wake_store refl (update_self s.pc i wake_store) in
      let at_exchange : update (update s.pc i wake_store) i wake_call j ≡ next_exchange c =
        ground (arith, ne, next) in
      let r3 = access-Reach cpp20 wake_order r2 j 0 (next_exchange c) refl at_exchange in
      let at_owner = update_self (update (update s.pc i wake_store) i wake_call) j owner in
      let released = load release v.message (v.thread i) in
      let kept = Reach-Unfenced cpp20 wake_order r i e in
      (
        _,
        _,
        r3,
        written,
        at_owner,
        acquire_nothing v.thread i j released _ e ne unseen
            (rw (update_self v.thread i released) kept),
      )
