-- ===== src/Futex/Kernel/Waiters.antt =====
-- A kernel that keeps the set of blocked threads, as one that has what src/concurrentfw/futex.hpp
-- needs.
use concurrentfw.Prelude.{ℕ, ◌≡◌, refl, ◌≢◌, ◌⊎◌, inl, inr, Bool, true, false, update, arith}
use concurrentfw.Futex.{Errno, woken, failed, eagain, WakeAnswer, woke, refused}
use concurrentfw.Futex.Kernel.{Kernel}

abbrev pub Waiters : Type 0
Waiters = ℕ → Bool

abbrev pub Woken : Waiters → WakeAnswer → Waiters → Type 0
Woken q a q' =
    ((a ≡ woke 0) × (q' ≡ q) × ((j : ℕ) → q j ≡ false))
    ⊎ ((m : ℕ) × (q m ≡ true) × (a ≡ woke 1) × (q' ≡ update q m false))

pub wake_one :
    {q q' : Waiters} {a : WakeAnswer}
    → Woken q a q'
    → (j : ℕ) → q j ≡ true
    → (m : ℕ) × (q m ≡ true) × (q' m ≡ false)
wake_one (inl (e, same, none_blocked)) j b = absurd (cc (none_blocked j))
wake_one (inr (m, bm, e, q'_is)) j b = (m, bm, rw q'_is (ground arith))

pub wake_none :
    {q q' : Waiters} {a : WakeAnswer} → Woken q a q' → (j : ℕ) → q j ≡ false → q' j ≡ false
wake_none (inl (e, same, none_blocked)) j f = rw same f
wake_none (inr (m, bm, e, q'_is)) j f = rw q'_is (ground arith)

pub wake_answer : {q q' : Waiters} {a : WakeAnswer} → Woken q a q' → (er : Errno) → a ≢ refused er
wake_answer (inl (e, same, none_blocked)) er h = cc
wake_answer (inr (m, bm, e, q'_is)) er h = cc

pub update_others :
    (q : Waiters) (i : ℕ) (b : Bool) {q' : Waiters}
    → q' ≡ update q i b
    → (j : ℕ) → i ≢ j
    → q' j ≡ q j
update_others q i b q'_is j ne = rw q'_is (ground arith)

pub update_own : (q : Waiters) (i : ℕ) (b : Bool) {q' : Waiters} → q' ≡ update q i b → q' i ≡ b
update_own q i b q'_is = rw q'_is (ground arith)

abbrev pub waiters_kernel : Kernel
waiters_kernel = record {
  Queue = Waiters;
  blocked = λ q. q;
  empty = λ _. false;
  Returns = λ q i value expected a. (value ≢ expected) × (a ≡ failed eagain);
  Blocks = λ q i value expected q'. (value ≡ expected) × (q' ≡ update q i true);
  Ends = λ q i a q'. (q' ≡ update q i false) × (q i ≡ false → a ≡ woken);
  Wakes = λ q n a q'. Woken q a q';
  blocked-empty = λ j. refl;
  block_value = λ h. h.0;
  block_others = λ {q} {q'} {i} h. update_others q i true h.1;
  end_self = λ {q} {q'} {i} h. update_own q i false h.0;
  end_others = λ {q} {q'} {i} h. update_others q i false h.0;
  end_woken = λ h. h.1;
  wake_only = wake_none;
  wake_accepted = λ h. wake_answer h _ refl;
  wake_some = λ h _. wake_one h;
}
