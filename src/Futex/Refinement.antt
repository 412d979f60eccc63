-- ===== src/Futex/Refinement.antt =====
-- The class `Futex` of src/concurrentfw/futex.hpp refines a lock that has one owner at most.
use concurrentfw.Prelude.{
  ℕ, ◌≡◌, refl, ◌≢◌, ◌⊎◌, ◌↔◌, inl, inr, Bool, true, false, Option, none, some, update, arith,
  Bool-cases, ℕ_discrete, update_self,
}
use concurrentfw.Futex.{
  Call, lock, trylock, trylock_timeout, Pc, outside, enter, first_exchange, next_exchange,
  about_to_wait, waiting, owner, wake_store, wake_call, thrown, WaitAnswer, woken, failed, eagain,
  eintr, etimedout, other, WakeAnswer, woke, refused, holds, run, loop, wait, after_compare,
  after_wait, after_wake,
}
use concurrentfw.Futex.Calls.{calling}
use concurrentfw.Futex.Kernel.{Kernel}
use concurrentfw.Futex.System.{
  System, Step, call, recover, access, wait_returns, wait_blocks, wait_ends, wake, mover, Reach,
  later,
}
use concurrentfw.Futex.Exclusion.{mutual_exclusion, value-eq-zero_iff}

-- What a step of thread `i` from `p` to `p'` does to the lock, which is its owner, while the word goes
-- from `value` to `value'`. A call takes the lock only for the thread that makes it, and only the
-- owner's own `unlock` gives it back.
pub data LockStep (i : ℕ) (p p' : Pc) (value value' : ℕ) : Option ℕ → Option ℕ → Type 0 where
  stays_free : value ≡ 0 → value' ≡ 0 → LockStep i p p' value value' none none
  stays_owned : (a : ℕ) → value ≢ 0 → value' ≢ 0 → LockStep i p p' value value' (some a) (some a)
  acquires :
      (c : Call)
      → calling p ≡ some c
      → p' ≡ owner
      → value ≡ 0
      → value' ≢ 0
      → LockStep i p p' value value' none (some i)
  releases :
      (p ≡ owner) ⊎ (p ≡ wake_store)
      → value ≢ 0
      → value' ≡ 0
      → LockStep i p p' value value' (some i) none

-- Who owns the lock, by where the threads are.
abbrev pub Owned : (ℕ → Pc) → Option ℕ → Type 0
Owned pc none = (i : ℕ) → holds (pc i) ≡ false
Owned pc (some i) = (holds (pc i) ≡ true) × ((j : ℕ) → i ≢ j → holds (pc j) ≡ false)

-- Whoever comes to own the futex by one move is in a call, and the call ends by it.
abbrev Takes : Pc → Pc → Type 0
Takes p p' = holds p ≡ false → holds p' ≡ true → (c : Call) × (calling p ≡ some c) × (p' ≡ owner)

loop-owner : (c : Call) (v : ℕ) → holds (loop c v) ≡ true → loop c v ≡ owner
unfolding loop
loop-owner c v h = ground (arith, h)

wait-owner : (c : Call) (v : ℕ) → holds (wait c v) ≡ true → wait c v ≡ owner
unfolding wait
wait-owner c v h = ground (arith, h, loop-owner c v)

after_compare-owner :
    (c : Call) (r : Bool × ℕ) → holds (after_compare c r) ≡ true → after_compare c r ≡ owner
unfolding after_compare
after_compare-owner c (true, v) h = refl
after_compare-owner lock (false, v) h = wait-owner lock v h
after_compare-owner trylock (false, v) h = absurd (ground (arith, h))
after_compare-owner trylock_timeout (false, v) h = wait-owner trylock_timeout v h

run-Takes : (value : ℕ) (p : Pc) → Takes p (run value p).1
unfolding run
run-Takes value outside h n = absurd (ground arith)
run-Takes value (enter c) h n = (c, refl, after_compare-owner c _ n)
run-Takes value (first_exchange c) h n = (c, refl, loop-owner c value n)
run-Takes value (about_to_wait c) h n = absurd (ground arith)
run-Takes value (waiting c) h n = absurd (ground arith)
run-Takes value (next_exchange c) h n = (c, refl, loop-owner c value n)
run-Takes value owner h n = absurd (ground arith)
run-Takes value wake_store h n = absurd (ground arith)
run-Takes value wake_call h n = absurd (ground arith)
run-Takes value thrown h n = absurd (ground arith)

after_wait-holds : (c : Call) (a : WaitAnswer) → holds (after_wait c a) ≡ false
unfolding after_wait
after_wait-holds c woken = refl
after_wait-holds c (failed eagain) = refl
after_wait-holds c (failed eintr) = refl
after_wait-holds lock (failed etimedout) = refl
after_wait-holds trylock (failed etimedout) = refl
after_wait-holds trylock_timeout (failed etimedout) = refl
after_wait-holds c (failed (other e)) = refl

after_wake-holds : (a : WakeAnswer) → holds (after_wake a) ≡ false
unfolding after_wake
after_wake-holds (woke n) = refl
after_wake-holds (refused e) = refl

-- Whoever does not own the futex after the move has not come to own it.
still_out-Takes : (p p' : Pc) → holds p' ≡ false → Takes p p'
still_out-Takes p p' out h n = absurd (ground (arith, out, n))

holds-cases : (p : Pc) → holds p ≡ true → (p ≡ owner) ⊎ (p ≡ wake_store)
holds-cases p h = ground (arith, h)

-- One thread moves to `p`.
moves :
    (pc : ℕ → Pc) (i : ℕ) (p : Pc) (value value' : ℕ) (o : Option ℕ)
    → Owned pc o
    → ((a b : ℕ) → holds (update pc i p a) ≡ true → holds (update pc i p b) ≡ true → a ≡ b)
    → ((value ≡ 0) ↔ ((j : ℕ) → holds (pc j) ≡ false))
    → ((value' ≡ 0) ↔ ((j : ℕ) → holds (update pc i p j) ≡ false))
    → Takes (pc i) p
    → (o' : Option ℕ) × Owned (update pc i p) o' × LockStep i (pc i) p value value' o o'
moves pc i p value value' none free alone before after takes = elim (Bool-cases (holds p)) [
  | inl held ↦
      let (c, calls, e) = takes (free i) held in
      (
        some i,
        (ground arith, λ j ne. ground (arith, free j)),
        acquires c calls e (before.1 free) (λ z. ground (arith, after.0 z i)),
      )
  | inr not_yet ↦ (
    none,
    λ j. ground (arith, free j),
    stays_free (before.1 free) (after.1 (λ j. ground (arith, free j))),
  )
]
moves pc i p value value' (some a) (own, others) alone before after takes =
    let owned : value ≢ 0 = λ z. ground (arith, before.0 z a) in
    elim (ℕ_discrete a i) [
      | yes e ↦ elim (Bool-cases (holds p)) [
        | inl keeps ↦ (
          some a,
          (ground arith, λ j ne. ground (arith, others j ne)),
          stays_owned a owned (λ z. ground (arith, after.0 z i)),
        )
        | inr leaves ↦
            let none_left : (j : ℕ) → holds (update pc i p j) ≡ false =
              λ j. ground (arith, others j) in
            (
              none,
              none_left,
              rw e (releases (holds-cases (pc i) (rw e at own)) owned (after.1 none_left)),
            )
      ]
      | no ne ↦ elim (Bool-cases (holds p)) [
        | inl held ↦ absurd (ne (alone a i (ground arith) (ground arith)))
        | inr out ↦ (
          some a,
          (ground arith, λ j nj. ground (arith, others j nj)),
          stays_owned a owned (λ z. ground (arith, after.0 z a)),
        )
      ]
    ]

module _ {k : Kernel} where
  Step-update :
      {s t : System k} (st : Step k s t)
      → (p : Pc) × (t.pc ≡ update s.pc (mover st) p) × Takes (s.pc (mover st)) p
  Step-update {s} (call i c e) = (_, refl, λ h n. absurd (ground arith))
  Step-update (recover i e) = (_, refl, λ h n. absurd (ground arith))
  Step-update {s} (access i) = (_, refl, run-Takes s.value (s.pc i))
  Step-update {s} (wait_returns i c {a} e r) =
      (_, refl, still_out-Takes (s.pc i) (after_wait c a) (after_wait-holds c a))
  Step-update (wait_blocks i c e b) = (_, refl, λ h n. absurd (ground arith))
  Step-update {s} (wait_ends i c {a} e r) =
      (_, refl, still_out-Takes (s.pc i) (after_wait c a) (after_wait-holds c a))
  Step-update (wake i {a} e w) = (_, refl, still_out-Takes _ (after_wake a) (after_wake-holds a))

  -- From a reachable state, whatever the kernel answers, each step is one of a lock with one owner at
  -- most, and the word is 0 just where the lock is free. The lock goes from free to owned only by a
  -- thread that is in `lock`, `trylock` or `trylock_timeout`: that thread is the owner then, and its
  -- call returns at this access, which finds 0. It goes from owned to free only by the owner itself,
  -- in its `unlock`, and it never goes from one thread to another.
  pub Step-LockStep :
      {locked : Bool} {s t : System k} {o : Option ℕ}
      → Reach k locked s
      → (st : Step k s t) → Owned s.pc o
      → (o' : Option ℕ) × Owned t.pc o'
        × LockStep (mover st) (s.pc (mover st)) (t.pc (mover st)) s.value t.value o o'
  Step-LockStep {s} {t} {o} r st own =
      let (p, e, takes) = Step-update st in
      let alone = mutual_exclusion (later r st) in
      let after = (value-eq-zero_iff (later r st)).1 in
      rw (e, update_self s.pc (mover st) p)
        (moves s.pc (mover st) p s.value t.value o own (rw e at alone) (value-eq-zero_iff r).1
          (rw e at after) takes)
