-- ===== src/Futex/Wakeups.antt =====
-- No wake-up of the class `Futex` (src/concurrentfw/futex.hpp, src/futex.cpp) is lost.
pub mod Moves
use Moves.{
  IsAwaited, is_waiting, pending, run-pending, run-is_waiting, after_wait-pending, move-IsAwaited,
  wake-IsAwaited,
}
use concurrentfw.Prelude.{
  ℕ, ◌≤◌, ◌≡◌, refl, ◌≢◌, ◌⊎◌, inl, inr, Bool, true, false, arith, Bool-cases, sym,
}
use concurrentfw.Futex.{
  Call, Pc, outside, about_to_wait, waiting, wake_call, thrown, WaitAnswer, WakeAnswer, woken,
  initial, run, holds, after_wait, after_wake,
}
use concurrentfw.Futex.Kernel.{Kernel}
use concurrentfw.Futex.System.{
  System, init, Step, call, recover, access, wait_returns, wait_blocks, wait_ends, wake, Reach,
  start, later,
}
use concurrentfw.Futex.Exclusion.{Reach-IsExclusive}

init-IsAwaited :
    (k : Kernel) (locked : Bool)
    → IsAwaited (init k locked).value (k.blocked (init k locked).queue) (init k locked).pc
unfolding init
init-IsAwaited k locked = record {
  inside = λ j b. absurd (cc (k.blocked-empty j));
  covered = λ j b. absurd (cc (k.blocked-empty j));
}

module _ {k : Kernel} where
  open k use {Queue, blocked}

  abbrev Awaited : System k → Type 0
  Awaited s = IsAwaited s.value (blocked s.queue) s.pc

  -- A thread that is blocked is in `futex_wait`.
  not_blocked :
      (s : System k) {i : ℕ} {p : Pc}
      → Awaited s
      → s.pc i ≡ p
      → is_waiting p ≡ false
      → blocked s.queue i ≡ false
  not_blocked s {i} inv e out = ground (arith, inv.inside i)

  Step-IsAwaited : {s t : System k} → Step k s t → Awaited s → Awaited t
  Step-IsAwaited {s} (call i c e) inv =
      let out = not_blocked s inv e refl in
      move-IsAwaited inv i _ s.value (blocked s.queue) (λ j _. refl) (λ b. cc)
        (inr (inr (λ b. b, ground arith, λ two. two)))
  Step-IsAwaited {s} (recover i e) inv =
      let out = not_blocked s inv e refl in
      move-IsAwaited inv i _ s.value (blocked s.queue) (λ j _. refl) (λ b. cc)
        (inr (inr (λ b. b, ground arith, λ two. two)))
  Step-IsAwaited {s} (access i) inv =
      move-IsAwaited inv i _ _ (blocked s.queue) (λ j _. refl)
        (λ b. run-is_waiting s.value (s.pc i) (inv.inside i b))
        (run-pending s.value (s.pc i) (blocked s.queue i))
  Step-IsAwaited {s} (wait_returns i c {a} e r) inv =
      let out = not_blocked s inv e refl in
      move-IsAwaited inv i _ s.value (blocked s.queue) (λ j _. refl) (λ b. cc)
        (inr (inr (λ b. b, ground arith, λ two. two)))
  Step-IsAwaited {s} (wait_blocks i c {q} e b) inv =
      move-IsAwaited inv i _ s.value (blocked q) (k.block_others b) (λ _. refl)
        (inl (k.block_value b))
  Step-IsAwaited {s} (wait_ends i c {a} {q} e r) inv =
      let free = k.end_self r in
      move-IsAwaited inv i _ s.value (blocked q) (k.end_others r) (λ b. cc)
        (elim (Bool-cases (blocked s.queue i)) [
          | inl was ↦ inr (inr (λ b. was, ground arith, λ two. two))
          | inr was ↦ inr (inl (rw (k.end_woken r was) (after_wait-pending c _)))
        ])
  Step-IsAwaited {s} (wake i {a} {q} e w) inv =
      wake-IsAwaited inv i _ (blocked q) e (k.wake_only w) (k.wake_some w (omega arith))

  Reach-IsAwaited : {locked : Bool} {s : System k} → Reach k locked s → Awaited s
  Reach-IsAwaited {locked} start = init-IsAwaited k locked
  Reach-IsAwaited (later r st) = Step-IsAwaited st (Reach-IsAwaited r)

  -- In every reachable state in which the kernel has blocked a thread, either the word is 2 and
  -- some thread owns the futex, or some thread that is not blocked has still to set the word to 2
  -- or to make the call that wakes a thread.
  pub no_lost_wakeup :
      {locked : Bool} {s : System k}
      → Reach k locked s
      → (i : ℕ) → blocked s.queue i ≡ true
      → ((j : ℕ) × (s.value ≡ 2) × (holds (s.pc j) ≡ true))
        ⊎ ((j : ℕ) × (pending (s.pc j) (blocked s.queue j) ≡ true))
  no_lost_wakeup r i b = elim ((Reach-IsAwaited r).covered i b) [
    | inl two ↦ let (j, own) = (Reach-IsExclusive r).held (omega arith) in inl (j, two, own)
    | inr later_on ↦ inr later_on
  ]
