-- ===== src/Futex/Progress.antt =====
-- The calls of the class `Futex` (src/concurrentfw/futex.hpp, src/futex.cpp) on a futex that nobody owns,
-- while no other thread takes it.
mod Examples
use concurrentfw.Prelude.{
  ℕ, zero, suc, ◌+◌, ◌≤◌, ◌≡◌, refl, subst, ap, ◌∙◌, ◌≢◌, ◌⊎◌, inl, inr, Bool, true, false, Option,
  none, some, update, update_self, arith, Bool-cases, ◌==◌,
}
use concurrentfw.Futex.{
  Call, lock, trylock, trylock_timeout, Errno, eagain, eintr, etimedout, other, woken, failed, Pc,
  outside, enter, first_exchange, next_exchange, about_to_wait, waiting, owner, wake_store,
  wake_call, thrown, run, holds, after_wait, WaitAnswer, loop, after_compare,
}
use concurrentfw.Futex.Kernel.{Kernel}
use concurrentfw.Futex.System.{
  System, Step, call, recover, access, wait_returns, wait_blocks, wait_ends, wake, Reach, mover,
  others_stay,
}
use concurrentfw.Futex.Exclusion.{value-eq-zero_iff}
use concurrentfw.Futex.Calls.{calling}

-- How many steps of its own are left to a thread in a call, and none to one that is in no call.
abbrev pub steps_left : Pc → ℕ
steps_left (enter c) = 1
steps_left (first_exchange c) = 1
steps_left (next_exchange c) = 1
steps_left (about_to_wait c) = 2
steps_left (waiting c) = 2
steps_left _ = 0

steps_left-le : (p : Pc) → steps_left p ≤ 2
steps_left-le p = ground arith

steps_left-calling : (c : Call) (p : Pc) → calling p ≡ some c → 1 ≤ steps_left p
steps_left-calling c p e = ground (arith, e)

-- The call `c` is over: with the futex, or by an answer of `futex_wait` that ends it.
abbrev pub IsOver : Call → Pc → Type 0
IsOver c p = (p ≡ owner) ⊎ ((p ≡ thrown) ⊎ ((p ≡ outside) × (c ≡ trylock_timeout)))

-- One move: the call goes on with fewer steps left and the word at 0, or it is over.
abbrev Result : Call → Pc → Pc → ℕ → Type 0
Result c p p' value =
    ((calling p' ≡ some c) × (value ≡ 0) × (suc (steps_left p') ≤ steps_left p))
    ⊎ ((calling p' ≡ none) × IsOver c p')

run-Result :
    (c : Call) (p : Pc) → calling p ≡ some c → p ≢ (run 0 p).1 → Result c p (run 0 p).1 (run 0 p).0
unfolding run loop
run-Result c (enter d) e ne = inr (refl, inl refl)
run-Result c (first_exchange d) e ne = inr (refl, inl refl)
run-Result c (next_exchange d) e ne = inr (refl, inl refl)
run-Result c (about_to_wait d) e ne = absurd (ne refl)
run-Result c (waiting d) e ne = absurd (ne refl)
run-Result c outside e ne = absurd (cc)
run-Result c owner e ne = absurd (cc)
run-Result c wake_store e ne = absurd (cc)
run-Result c wake_call e ne = absurd (cc)
run-Result c thrown e ne = absurd (cc)

after_wait-Result :
    (c : Call) (p : Pc) (a : WaitAnswer) (value : ℕ)
    → steps_left p ≡ 2
    → value ≡ 0
    → Result c p (after_wait c a) value
unfolding after_wait
after_wait-Result c p woken value two is_free = inl (refl, is_free, omega (arith, two))
after_wait-Result c p (failed eagain) value two is_free = inl (refl, is_free, omega (arith, two))
after_wait-Result c p (failed eintr) value two is_free = inl (refl, is_free, omega (arith, two))
after_wait-Result lock p (failed etimedout) value two is_free = inr (refl, inr (inl refl))
after_wait-Result trylock p (failed etimedout) value two is_free = inr (refl, inr (inl refl))
after_wait-Result trylock_timeout p (failed etimedout) value two is_free =
    inr (refl, inr (inr (refl, refl)))
after_wait-Result c p (failed (other n)) value two is_free = inr (refl, inr (inl refl))

same-call : (c d : Call) (p : Pc) → calling p ≡ some c → calling p ≡ some d → d ≡ c
same-call c d p e f = ground (arith, e, f)

module _ {k : Kernel} where
  -- Thread `i` moves within its call `c`, and the others move in between, without taking the futex.
  pub data Untaken (i : ℕ) (c : Call) (s : System k) : ℕ → System k → Type 0 where
    begin : Untaken i c s 0 s
    own :
        {n : ℕ} {t u : System k}
        → Untaken i c s n t
        → (st : Step k t u) → mover st ≡ i
        → calling (t.pc i) ≡ some c
        → t.pc i ≢ u.pc i
        → Untaken i c s (suc n) u
    others :
        {n : ℕ} {t u : System k}
        → Untaken i c s n t
        → (st : Step k t u) → mover st ≢ i
        → u.value ≡ 0
        → Untaken i c s n u

  Step-Result :
      {t u : System k} (c : Call) (st : Step k t u)
      → calling (t.pc (mover st)) ≡ some c
      → t.pc (mover st) ≢ u.pc (mover st)
      → t.value ≡ 0
      → Result c (t.pc (mover st)) (u.pc (mover st)) u.value
  Step-Result c (call i d e) in_call ne is_free = absurd (ground (arith, e, in_call))
  Step-Result c (recover i e) in_call ne is_free = absurd (ground (arith, e, in_call))
  Step-Result {t} c (access i) in_call ne is_free =
      rw (is_free, update_self t.pc i (run 0 (t.pc i)).1)
        (run-Result c (t.pc i) in_call
          (λ same. ne (rw (is_free, update_self t.pc i (run 0 (t.pc i)).1) same)))
  Step-Result {t} c (wait_returns i d {a} e r) in_call ne is_free =
      let same = same-call c d (t.pc i) in_call (ground (arith, e)) in
      rw (update_self t.pc i (after_wait d a), same)
        (after_wait-Result c (t.pc i) a t.value (ground (arith, e)) is_free)
  Step-Result {t} c (wait_blocks i d e b) in_call ne is_free =
      absurd (ground (arith, is_free, k.block_value b))
  Step-Result {t} c (wait_ends i d {a} e r) in_call ne is_free =
      let same = same-call c d (t.pc i) in_call (ground (arith, e)) in
      rw (update_self t.pc i (after_wait d a), same)
        (after_wait-Result c (t.pc i) a t.value (ground (arith, e)) is_free)
  Step-Result c (wake i e w) in_call ne is_free = absurd (ground (arith, e, in_call))

  Untaken-Result :
      (i : ℕ) (c : Call) {s : System k} {n : ℕ} {t : System k}
      → s.value ≡ 0
      → calling (s.pc i) ≡ some c
      → Untaken i c s n t
      → ((calling (t.pc i) ≡ some c) × (t.value ≡ 0) × (n + steps_left (t.pc i) ≤ 2))
        ⊎ ((calling (t.pc i) ≡ none) × IsOver c (t.pc i) × (n ≤ 2))
  Untaken-Result i c {s} is_free in_call begin =
      inl (in_call, is_free, omega (arith, steps_left-le (s.pc i)))
  Untaken-Result i c is_free in_call (own {t} {u} before st by still moves) =
      elim (Untaken-Result i c is_free in_call before) [
        | inl (e, f, left) ↦
            let some_left = steps_left-calling c (t.pc i) still in
            let moved : Result c (t.pc i) (u.pc i) u.value =
              subst
                (λ x.
                  calling (t.pc x) ≡ some c → t.pc x ≢ u.pc x → Result c (t.pc x) (u.pc x) u.value)
                by (λ a b. Step-Result c st a b f) still moves in
            elim moved [
              | inl (e', f', less) ↦ inl (e', f', omega (arith, less, left))
              | inr (e', over) ↦ inr (e', over, omega (arith, left, some_left))
            ]
        | inr (e, over, m) ↦ absurd (cc)
      ]
  Untaken-Result i c is_free in_call (others {n} {t} {u} before st ne free_still) =
      let same : u.pc i ≡ t.pc i = others_stay st i ne in
      elim (Untaken-Result i c is_free in_call before) [
        | inl (e, f, left) ↦ inl (ap calling same ∙ e, free_still, rw same left)
        | inr (e, over, m) ↦ inr (ap calling same ∙ e, rw same over, m)
      ]

  module _ {locked : Bool} {s : System k} (r : Reach k locked s) where
    -- From a reachable state in which nobody owns the futex, whatever the kernel answers and the others
    -- do, short of taking the futex: a thread in a call makes two moves at most. After one it may still be
    -- in the call; after the second its call is over: it owns the futex, has thrown, or has given up as
    -- `trylock_timeout`.
    pub free_futex_taken :
        ((j : ℕ) → holds (s.pc j) ≡ false)
        → (i : ℕ) (c : Call) → calling (s.pc i) ≡ some c
        → {n : ℕ} {t : System k} → Untaken i c s n t
        → ((n ≤ 1) × (calling (t.pc i) ≡ some c)) ⊎ ((n ≤ 2) × IsOver c (t.pc i))
    free_futex_taken none_holds i c in_call {n} {t} alone =
        elim (Untaken-Result i c ((value-eq-zero_iff r).1.1 none_holds) in_call alone) [
          | inl (e, f, left) ↦ inl (omega (arith, left, steps_left-calling c (t.pc i) e), e)
          | inr (e, over, m) ↦ inr (m, over)
        ]
