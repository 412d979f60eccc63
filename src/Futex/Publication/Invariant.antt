-- ===== src/Futex/Publication/Invariant.antt =====
-- What the word and the threads carry of the writes to the data (src/futex.cpp).
use concurrentfw.Prelude.{
  ℕ, ◌<◌, ◌≡◌, refl, ◌≢◌, ◌⊎◌, inl, inr, true, false, ◌∷◌, update, update_all, update_both, arith,
}
use concurrentfw.Atomic.Order.{MemoryOrder, acquire, release}
use concurrentfw.Atomic.Views.{
  View, Standard, cpp17, cpp20, Thread, Head, Message, carried, continued, releases, store, head,
  load, modify,
}
use concurrentfw.Futex.{Pc, owner, wake_store, holds}
use concurrentfw.Futex.Publication.{Views, modified}

-- The view has the first `n` writes.
abbrev pub Covers : ℕ → View → Type 0
Covers n view = (e : ℕ) → e < n → view e ≡ true

module _ (std : Standard) (o : MemoryOrder) where
  -- Thread `j` at `p` knows the first `n` writes if it owns the futex, and its next store passes
  -- them on if that store is the one of `wake`.
  pub record Ready (message : Message) (n j : ℕ) (p : Pc) (t : Thread) : Type 0 where
    pub knows : p ≡ owner → Covers n t.current
    pub passes : p ≡ wake_store → Covers n (carried (store std j o t message))

  pub record IsPublished (value : ℕ) (pc : ℕ → Pc) (v : Views) : Type 0 where
    pub free : value ≡ 0 → Covers v.writes (carried v.message)
    pub ready : (j : ℕ) → Ready v.message v.writes j (pc j) (v.thread j)

-- The head of another thread's sequence does not reach past a store.
continued-other :
    (std : Standard) (j : ℕ) (h : Head) (hs : Message)
    → h.thread ≢ j
    → continued std j (h ∷ hs) ≡ continued std j hs
unfolding continued
continued-other cpp20 j h hs ne = refl
continued-other cpp17 j h hs ne = ground arith

continued-own :
    (j : ℕ) (h : Head) (hs : Message)
    → h.thread ≡ j
    → continued cpp17 j (h ∷ hs) ≡ h ∷ continued cpp17 j hs
unfolding continued
continued-own j h hs e = ground arith

store-other :
    (std : Standard) (o : MemoryOrder) (j : ℕ) (t : Thread) (h : Head) (hs : Message)
    → h.thread ≢ j
    → store std j o t (h ∷ hs) ≡ store std j o t hs
unfolding store
store-other std o j t h hs ne = rw (continued-other std j h hs ne) refl

-- A write that releases carries all that its thread knows.
pub carried-modify :
    (i n : ℕ) (t : Thread) (hs : Message)
    → Covers n t.current
    → Covers n (carried (modify i release t hs).1)
unfolding carried modify load head
carried-modify i n t hs c e lt = ground (arith, c e lt)

-- So does the store of `wake` after it, if it continues the sequence or releases itself.
pub carried-store :
    (std : Standard) (o : MemoryOrder) (i n : ℕ) (t : Thread) (hs : Message)
    → (std ≡ cpp17) ⊎ (releases o ≡ true)
    → Covers n t.current
    → Covers n (carried (store std i o (modify i release t hs).0 (modify i release t hs).1))
unfolding carried store head modify load
carried-store std o i n t hs (inl old) c e lt =
    let keeps = continued-own i (head i release (load release hs t)) hs refl in
    ground (arith, old, keeps, c e lt)
carried-store std o i n t hs (inr rel) c e lt = ground (arith, c e lt)

module _ {std : Standard} {o : MemoryOrder} where
  pub Ready-quiet :
      (message : Message) (n j : ℕ) (p : Pc) (t : Thread)
      → holds p ≡ false
      → Ready std o message n j p t
  Ready-quiet message n j p t out = record {
    knows = λ e. absurd (ground (arith, e, out));
    passes = λ e. absurd (ground (arith, e, out));
  }

  -- Another thread reads and writes the word in one step.
  Ready-other :
      (message : Message) (h : Head) (n j : ℕ) (p : Pc) (t : Thread)
      → h.thread ≢ j
      → Ready std o message n j p t
      → Ready std o (h ∷ message) n j p t
  Ready-other message h n j p t ne r = record {
    knows = r.knows;
    passes = λ e. rw (store-other std o j t h message ne) (r.passes e);
  }

  module _ {value : ℕ} {pc : ℕ → Pc} {v : Views} (inv : IsPublished std o value pc v) (i : ℕ) where
    open inv use {free, ready}

    -- A thread moves outside the critical section.
    pub quiet-IsPublished :
        (p' : Pc) → holds p' ≡ false → IsPublished std o value (update pc i p') v
    quiet-IsPublished p' out = record {
      free = free;
      ready =
          update_all (λ j p. Ready std o v.message v.writes j p (v.thread j)) i p' (λ j _. ready j)
            (Ready-quiet v.message v.writes i p' (v.thread i) out);
    }

    -- So does one that has read the word.
    pub load-IsPublished :
        (p' : Pc) (t : Thread)
        → holds p' ≡ false
        → IsPublished std o value (update pc i p') (record v { thread = update v.thread i t })
    load-IsPublished p' t out = record {
      free = free;
      ready =
          update_both (Ready std o v.message v.writes) i p' t (λ j _. ready j)
            (Ready-quiet v.message v.writes i p' t out);
    }

    -- A thread that owns nothing reads and writes the word with acquire order.
    pub take-IsPublished :
        (p' : Pc) (value' : ℕ)
        → value' ≢ 0
        → ((value ≡ 0) × (p' ≡ owner)) ⊎ (holds p' ≡ false)
        → IsPublished std o value' (update pc i p') (modified i acquire v)
    unfolding modify load head
    take-IsPublished p' value' ne how = record {
      free = λ z. absurd (ne z);
      ready =
          update_both (Ready std o (modify i acquire (v.thread i) v.message).1 v.writes) i p' _
            (λ j other. Ready-other v.message _ v.writes j (pc j) (v.thread j) other (ready j))
            (elim how [
              | inl (z, own) ↦ record {
                knows = λ _ e lt. ground (arith, free z e lt);
                passes = λ e. absurd (cc (own, e));
              }
              | inr out ↦ Ready-quiet _ v.writes i p' _ out
            ]);
    }
