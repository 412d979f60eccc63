-- ===== src/Stack/Invariant/Accesses.antt =====
-- Each access of a thread (src/stack.cpp) keeps the invariant, and does to the blocks what its event
-- says, as long as the counter has not wrapped round.
use native.Mathlib.Nat.{mod-eq_of_lt}
use concurrentfw.Prelude.{
  ℕ, ◌+◌, ◌^◌, ◌<◌, ◌≡◌, refl, inl, inr, true, none, some, List, [], ◌∷◌, update, update_self, ◌==◌,
  arith, Bool-cases,
}
use concurrentfw.AbaWrapper.{Content, same}
use concurrentfw.AbaWrapper.Dwcas.{next}
use concurrentfw.Stack.{
  Block, null, Memory, Pc, idle, push_start, push_cached, push_linked, pop_start, pop_cached,
  pop_read, rejected, Event, silent, pushed, popped, found_empty, pop_loaded, run,
}
use concurrentfw.Stack.Chain.{Chain, cons, Chain-top, Chain-null}
use concurrentfw.Stack.Swaps.{push_hit, push_miss, pop_hit, pop_miss}
use concurrentfw.Stack.System.{System, settle, tally}
use concurrentfw.Stack.Invariant.{Fresh, Local, Holds}
use concurrentfw.Stack.Invariant.Moves.{quiet-Holds, write-Holds, change-Holds}

-- What a stack does at an event: a pushed block comes on top, a popped one is taken from there, and
-- only an empty stack is found empty.
abbrev pub Spec : List Block → Event → List Block → Type 0
Spec xs silent ys = ys ≡ xs
Spec xs (pushed b) ys = ys ≡ b ∷ xs
Spec xs (popped b) ys = xs ≡ b ∷ ys
Spec xs found_empty ys = (xs ≡ []) × (ys ≡ [])

abbrev pub HoldsIn : System → List Block → Type 0
HoldsIn s xs = Holds s.memory s.owner s.pc s.changes xs

module _ (w : ℕ) {s : System} {xs : List Block} (inv : HoldsIn s xs) (i : ℕ) where
  open inv use {counted, chain, unowned, local}

  abbrev pub m : Memory
  m = s.memory

  -- The state after thread `i` has gone on from `p`.
  abbrev pub Goes : Pc → Type 0
  Goes p =
      tally (run w m p).2 s.changes + 1 < 2 ^ w
      → (ys : List Block) × Holds (run w m p).0 (settle i (run w m p).2 s.owner)
          (update s.pc i (run w m p).1) (tally (run w m p).2 s.changes) ys
        × Spec xs (run w m p).2 ys

  now : Fresh m.stack m.stack
  now = (omega arith, λ _. refl)

  -- The load of `pop`, or a compare-and-swap that failed, and the test for null.
  loaded :
      (ys : List Block) × Holds m
        (settle i (pop_loaded m.stack).1 s.owner)
        (update s.pc i (pop_loaded m.stack).0)
        (tally (pop_loaded m.stack).1 s.changes)
        ys
      × Spec xs (pop_loaded m.stack).1 ys
  unfolding pop_loaded
  loaded = elim (Bool-cases (m.stack.value == null)) [
    | inl empty ↦
        let none_left = Chain-null chain (ground arith) in
        rw empty (xs, quiet-Holds inv i idle tt, (none_left, none_left))
    | inr some_left ↦
        rw some_left (xs, quiet-Holds inv i (pop_cached m.stack) (ground arith, now), refl)
  ]

  -- The counter of a successful compare-and-swap has not wrapped.
  next-counter :
      (c : Content) (new : ℕ)
      → same m.stack c ≡ true
      → s.changes + 1 + 1 < 2 ^ w
      → (next w c new).counter ≡ m.stack.counter + 1
  unfolding next
  next-counter c new hit bound =
      let kept : c.counter ≡ m.stack.counter = ground arith in rw kept (mod-eq_of_lt (omega arith))

  push_lands :
      (b : Block) (c : Content)
      → same m.stack c ≡ true
      → Local m.link m.stack s.owner i (push_linked b c)
      → Chain m.link (next w c b).value (b ∷ xs)
  unfolding next
  push_lands b c hit l = cons l.0 (ground (arith, unowned b)) (ground arith) chain

  push_accesses :
      (b : Block) (c : Content)
      → Local m.link m.stack s.owner i (push_linked b c)
      → Goes (push_linked b c)
  push_accesses b c l = elim (Bool-cases (same m.stack c)) [
    | inl hit ↦ rw (push_hit w m b c hit) (λ bound. (
      b ∷ xs,
      change-Holds inv i (next w c b) b none idle (b ∷ xs) (next-counter c b hit bound)
          (push_lands b c hit l) (λ d h. ground (arith, unowned d)) (λ j ne h. ground arith) tt,
      refl,
    ))
    | inr miss ↦
        rw (push_miss w m b c miss)
          (λ bound. (xs, quiet-Holds inv i (push_cached b m.stack) (l.0, l.1, now), refl))
  ]

  -- The read block is still the one below the top.
  pop_lands :
      (c : Content) (below : Block) {ys : List Block}
      → same m.stack c ≡ true
      → Local m.link m.stack s.owner i (pop_read c below)
      → Chain m.link (m.link m.stack.value) ys
      → Chain m.link (next w c below).value ys
  unfolding next
  pop_lands c below hit l rest =
      let as_read : m.link m.stack.value ≡ below = ground arith in rw as_read at rest

  pop_accesses :
      (c : Content) (below : Block)
      → Local m.link m.stack s.owner i (pop_read c below)
      → Goes (pop_read c below)
  pop_accesses c below l = elim (Bool-cases (same m.stack c)) [
    | inl hit ↦ rw (pop_hit w m c below hit) (λ bound.
        let on_top : m.stack.value ≡ c.value = ground arith in
        let (ys, xs_is, rest, new) = Chain-top chain (rw on_top l.0) in
        (
          ys,
          change-Holds inv i (next w c below) c.value (some i) idle ys
              (next-counter c below hit bound) (pop_lands c below hit l rest)
              (λ d h. ground (arith, unowned d, xs_is))
              (λ j ne h. ground (arith, unowned c.value, xs_is)) tt,
          rw (← on_top) xs_is,
        ))
    | inr miss ↦ rw (pop_miss w m c below miss) (λ bound. loaded)
  ]

  pub goes : (p : Pc) → s.pc i ≡ p → Local m.link m.stack s.owner i p → Goes p
  unfolding run
  goes idle e l = λ bound. (xs, quiet-Holds inv i idle tt, refl)
  goes rejected e l = λ bound. (xs, quiet-Holds inv i rejected tt, refl)
  goes (push_start b) e l =
      λ bound. (xs, quiet-Holds inv i (push_cached b m.stack) (l.0, l.1, now), refl)
  goes (push_cached b c) e l = λ bound. (
    xs,
    write-Holds inv i b c.value (push_linked b c) l.1 (l.0, l.1, l.2, update_self m.link b c.value),
    refl,
  )
  goes (push_linked b c) e l = push_accesses b c l
  goes pop_start e l = λ bound. loaded
  goes (pop_cached c) e l =
      λ bound. (xs, quiet-Holds inv i (pop_read c (m.link c.value)) (l.0, l.1, λ _. refl), refl)
  goes (pop_read c below) e l = pop_accesses c below l
