-- ===== src/StackTest/Events.antt =====
-- The accesses of `push` and `pop` in src/tests/test_stack.cpp: what they write to, and what is known of the
-- block of an event before it.
use concurrentfw.Prelude.{ℕ, suc, ◌≡◌, refl, ◌⊎◌, inl, inr, Option, none, some, update, arith}
use concurrentfw.AbaWrapper.Dwcas.{dw_cas}
use concurrentfw.Stack.{
  Block, Memory, Pc, idle, push_start, push_cached, push_linked, pop_start, pop_cached, pop_read,
  rejected, Event, silent, pushed, popped, run, pop_loaded, push_swapped, pop_swapped,
}
use concurrentfw.Stack.Invariant.{Local}
use concurrentfw.StackTest.{Place, held, on}
use concurrentfw.StackTest.Views.{owner_of}

module _ (w : ℕ) where
  -- A call whose access is no silent one is over.
  pub silent_or_idle : (m : Memory) (p : Pc) → ((run w m p).2 ≡ silent) ⊎ ((run w m p).1 ≡ idle)
  unfolding run pop_loaded push_swapped pop_swapped dw_cas
  silent_or_idle m idle = inl refl
  silent_or_idle m rejected = inl refl
  silent_or_idle m (push_start b) = inl refl
  silent_or_idle m (push_cached b c) = inl refl
  silent_or_idle m (push_linked b c) = ground arith
  silent_or_idle m pop_start = ground arith
  silent_or_idle m (pop_cached c) = inl refl
  silent_or_idle m (pop_read c below) = ground arith

  -- Only a block that the thread owns is written to or pushed.
  pub run-link :
      (m : Memory) (owner : Block → Option ℕ) (i : ℕ) (p : Pc)
      → Local m.link m.stack owner i p
      → ((run w m p).0.link ≡ m.link)
        ⊎ ((b : Block) × (word : ℕ) × ((run w m p).0.link ≡ update m.link b word)
            × (owner b ≡ some i)
            × ((run w m p).2 ≡ silent))
  unfolding run
  run-link m owner i idle l = inl refl
  run-link m owner i rejected l = inl refl
  run-link m owner i (push_start b) l = inl refl
  run-link m owner i (push_cached b c) l = inr (b, c.value, refl, l.1, refl)
  run-link m owner i (push_linked b c) l = inl refl
  run-link m owner i pop_start l = inl refl
  run-link m owner i (pop_cached c) l = inl refl
  run-link m owner i (pop_read c below) l = inl refl

  pub run-pushed :
      (m : Memory) (owner : Block → Option ℕ) (i : ℕ) (p : Pc) (b : Block)
      → Local m.link m.stack owner i p
      → (run w m p).2 ≡ pushed b
      → owner b ≡ some i
  unfolding run pop_loaded push_swapped pop_swapped dw_cas
  run-pushed m owner i idle b l e = absurd (cc)
  run-pushed m owner i rejected b l e = absurd (cc)
  run-pushed m owner i (push_start d) b l e = absurd (cc)
  run-pushed m owner i (push_cached d c) b l e = absurd (cc)
  run-pushed m owner i (push_linked d c) b l e = ground (arith, l.1)
  run-pushed m owner i pop_start b l e = absurd (ground arith)
  run-pushed m owner i (pop_cached c) b l e = absurd (cc)
  run-pushed m owner i (pop_read c below) b l e = absurd (ground arith)

-- What is known of the block of an event before it.
abbrev pub Before : ℕ → ℕ → (Block → Place) → Event → Type 0
Before i m place (pushed b) = place b ≡ held i
Before i m place (popped b) = place b ≡ on m
Before i m place _ = Unit

pub owner-held : (m i : ℕ) (p : Place) → owner_of m p ≡ some (suc i) → p ≡ held i
owner-held m i p e = ground arith

pub owner-on : (m : ℕ) (p : Place) → owner_of m p ≡ none → p ≡ on m
owner-on m p e = ground arith
