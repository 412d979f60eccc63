-- ===== src/Stack/Timely/Access.antt =====
-- An access in time (src/stack.cpp) does what it would do with a counter that never wraps.
use native.Mathlib.Nat.{mod-eq_of_lt, mod-add-mod}
use concurrentfw.Prelude.{
  ℕ, ◌+◌, ◌%◌, ◌^◌, ◌≤◌, ◌<◌, ◌≡◌, refl, ◌∙◌, sym, true, inl, inr, arith, Bool-cases, ◌==◌,
}
use concurrentfw.Prelude.Modulus.{mod_within}
use concurrentfw.AbaWrapper.{Content, same}
use concurrentfw.AbaWrapper.Dwcas.{next}
use concurrentfw.Stack.{
  Block, null, Memory, Pc, idle, push_start, push_cached, push_linked, pop_start, pop_cached,
  pop_read, rejected, Event, run, pop_loaded,
}
use concurrentfw.Stack.Swaps.{push_hit, push_miss, pop_hit, pop_miss}
use concurrentfw.Stack.System.{tally}
use concurrentfw.Stack.Timely.{look, InTime}
use concurrentfw.Stack.Timely.Lift.{counted, lift_memory, lift_pc, Counts}

module _ (w u : ℕ) (m : Memory) (n l : ℕ) (now : m.stack.counter ≡ (n + 1) % 2 ^ w) where
  -- A cached content of the present count is one that nobody has changed since.
  unchanged :
      (c : Content)
      → c.counter ≡ (l + 1) % 2 ^ w
      → l ≤ n
      → n < l + 2 ^ w
      → m.stack.counter ≡ c.counter
      → l ≡ n
  unchanged c count le lt e =
      let equal =
        mod_within (l + 1) (n + 1) (2 ^ w) (omega (arith, le)) (omega (arith, lt))
          (sym count ∙ sym e ∙ now) in
      omega (arith, equal)

  same-counted :
      (c : Content)
      → c.counter ≡ (l + 1) % 2 ^ w
      → l ≤ n
      → n < l + 2 ^ w
      → same (counted m.stack n) (counted c l) ≡ same m.stack c
  same-counted c count le lt = ground (arith, unchanged c count le lt, now, count)

  next-counter :
      (c : Content) (new : ℕ)
      → c.counter ≡ (l + 1) % 2 ^ w
      → l ≤ n
      → n < l + 2 ^ w
      → same m.stack c ≡ true
      → (next w c new).counter ≡ (n + 1 + 1) % 2 ^ w
  unfolding next
  next-counter c new count le lt hit =
      let fresh : l ≡ n = unchanged c count le lt (ground arith) in
      let turned : ((n + 1) % 2 ^ w + 1) % 2 ^ w ≡ (n + 1 + 1) % 2 ^ w =
        mod-add-mod (n + 1) (2 ^ w) 1 in
      rw (count, fresh) turned

  next-counted :
      (c : Content) (new : ℕ)
      → c.counter ≡ (l + 1) % 2 ^ w
      → l ≤ n
      → n < l + 2 ^ w
      → same m.stack c ≡ true
      → n + 1 + 1 < 2 ^ u
      → next u (counted c l) new ≡ counted (next w c new) (n + 1)
  unfolding next
  next-counted c new count le lt hit bound =
      let fresh : l ≡ n = unchanged c count le lt (ground arith) in
      let fits : (n + 1 + 1) % 2 ^ u ≡ n + 1 + 1 = mod-eq_of_lt bound in rw (fresh, fits) refl

  -- Counters of `u` bits, which do not wrap, beside those of `w` bits.
  abbrev pub Lifts : Pc → Type 0
  Lifts p = run u (lift_memory m n) (lift_pc l p) ≡ (
    lift_memory (run w m p).0 (tally (run w m p).2 n),
    lift_pc (look p n l) (run w m p).1,
    (run w m p).2,
  )

  -- The test of `pop` for null does not look at the counter.
  loaded-lift :
      ◌≡◌ {A = Memory × Pc × Event}
        (lift_memory m n, (pop_loaded (counted m.stack n)).0, (pop_loaded (counted m.stack n)).1)
        (
          lift_memory m (tally (pop_loaded m.stack).1 n),
          lift_pc n (pop_loaded m.stack).0,
          (pop_loaded m.stack).1,
        )
  unfolding lift_memory lift_pc pop_loaded
  loaded-lift = elim (Bool-cases (m.stack.value == null)) [
    | inl empty ↦ rw empty refl
    | inr some_left ↦ rw some_left refl
  ]

  push-lift :
      (block : Block) (c : Content)
      → Counts w n l (push_linked block c)
      → InTime w n l (push_linked block c)
      → tally (run w m (push_linked block c)).2 n + 1 < 2 ^ u
      → Lifts (push_linked block c)
  unfolding lift_memory lift_pc look
  push-lift block c h t b = elim (Bool-cases (same m.stack c)) [
    | inl hit ↦
        let hit' = same-counted c h.0 h.1 t ∙ hit in
        let bound : n + 1 + 1 < 2 ^ u = rw (push_hit w m block c hit) at b in
        let next_is = next-counted c block h.0 h.1 t hit bound in
        rw
          (push_hit w m block c hit, push_hit u (lift_memory m n) block (counted c l) hit', next_is)
          refl
    | inr miss ↦
        let miss' = same-counted c h.0 h.1 t ∙ miss in
        rw (push_miss w m block c miss, push_miss u (lift_memory m n) block (counted c l) miss')
          refl
  ]

  pop-lift :
      (c : Content) (below : Block)
      → Counts w n l (pop_read c below)
      → InTime w n l (pop_read c below)
      → tally (run w m (pop_read c below)).2 n + 1 < 2 ^ u
      → Lifts (pop_read c below)
  unfolding lift_memory lift_pc look
  pop-lift c below h t b = elim (Bool-cases (same m.stack c)) [
    | inl hit ↦
        let hit' = same-counted c h.0 h.1 t ∙ hit in
        let bound : n + 1 + 1 < 2 ^ u = rw (pop_hit w m c below hit) at b in
        let next_is = next-counted c below h.0 h.1 t hit bound in
        rw (pop_hit w m c below hit, pop_hit u (lift_memory m n) (counted c l) below hit', next_is)
          refl
    | inr miss ↦
        let miss' = same-counted c h.0 h.1 t ∙ miss in
        rw (pop_miss w m c below miss, pop_miss u (lift_memory m n) (counted c l) below miss')
          loaded-lift
  ]

  pub run-lift :
      (p : Pc) → Counts w n l p → InTime w n l p → tally (run w m p).2 n + 1 < 2 ^ u → Lifts p
  unfolding run lift_memory lift_pc look pop_loaded
  run-lift idle h t b = refl
  run-lift rejected h t b = refl
  run-lift (push_start block) h t b = refl
  run-lift (push_cached block c) h t b = refl
  run-lift (push_linked block c) h t b = push-lift block c h t b
  run-lift pop_start h t b = loaded-lift
  run-lift (pop_cached c) h t b = refl
  run-lift (pop_read c below) h t b = pop-lift c below h t b

  -- What the counts are after the access.
  abbrev pub CountsOn : Pc → Type 0
  CountsOn p =
      ((run w m p).0.stack.counter ≡ (tally (run w m p).2 n + 1) % 2 ^ w)
      × Counts w (tally (run w m p).2 n) (look p n l) (run w m p).1

  loaded-Counts :
      (m.stack.counter ≡ (tally (pop_loaded m.stack).1 n + 1) % 2 ^ w)
      × Counts w (tally (pop_loaded m.stack).1 n) n (pop_loaded m.stack).0
  unfolding pop_loaded
  loaded-Counts = elim (Bool-cases (m.stack.value == null)) [
    | inl empty ↦ rw empty (now, tt)
    | inr some_left ↦ rw some_left (now, (now, omega arith))
  ]

  push-Counts :
      (block : Block) (c : Content)
      → Counts w n l (push_linked block c)
      → InTime w n l (push_linked block c)
      → CountsOn (push_linked block c)
  unfolding look
  push-Counts block c h t = elim (Bool-cases (same m.stack c)) [
    | inl hit ↦ rw (push_hit w m block c hit) (next-counter c block h.0 h.1 t hit, tt)
    | inr miss ↦ rw (push_miss w m block c miss) (now, (now, omega arith))
  ]

  pop-Counts :
      (c : Content) (below : Block)
      → Counts w n l (pop_read c below)
      → InTime w n l (pop_read c below)
      → CountsOn (pop_read c below)
  unfolding look
  pop-Counts c below h t = elim (Bool-cases (same m.stack c)) [
    | inl hit ↦ rw (pop_hit w m c below hit) (next-counter c below h.0 h.1 t hit, tt)
    | inr miss ↦ rw (pop_miss w m c below miss) loaded-Counts
  ]

  pub run-Counts : (p : Pc) → Counts w n l p → InTime w n l p → CountsOn p
  unfolding run look
  run-Counts idle h t = (now, tt)
  run-Counts rejected h t = (now, tt)
  run-Counts (push_start block) h t = (now, (now, omega arith))
  run-Counts (push_cached block c) h t = (now, h)
  run-Counts (push_linked block c) h t = push-Counts block c h t
  run-Counts pop_start h t = loaded-Counts
  run-Counts (pop_cached c) h t = (now, h)
  run-Counts (pop_read c below) h t = pop-Counts c below h t
