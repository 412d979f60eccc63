-- ===== src/Stack/Llsc/Accesses.antt =====
-- Each access of a thread (src/stack.cpp, on a platform with LLSC) keeps the invariant, and does to
-- the blocks what its event says.
use concurrentfw.Prelude.{
  ℕ, ◌≡◌, refl, inl, inr, true, false, none, some, List, ◌∷◌, update, update_self, ◌==◌, arith,
  Bool-cases,
}
use concurrentfw.Stack.{Block, null}
use concurrentfw.Stack.Chain.{cons, Chain-top, Chain-null}
use concurrentfw.Stack.System.{settle}
use concurrentfw.Stack.Invariant.Accesses.{Spec}
use concurrentfw.Stack.Llsc.{
  Memory, Pc, idle, push_start, push_cached, push_linked, pop_start, pop_cached, pop_read, rejected,
  run,
}
use concurrentfw.Stack.Llsc.System.{System}
use concurrentfw.Stack.Llsc.Invariant.{
  Local, Holds, quiet-Holds, keep-Holds, write-Holds, change-Holds,
}

abbrev pub HoldsIn : System → List Block → Type 0
HoldsIn s xs = Holds s.memory s.owner s.pc xs

module _ {s : System} {xs : List Block} (inv : HoldsIn s xs) (i : ℕ) where
  open inv use {chain, unowned, local}

  abbrev pub m : Memory
  m = s.memory

  -- The state after thread `i` has gone on from `p`.
  abbrev pub Goes : Pc → Type 0
  Goes p =
      (ys : List Block) × Holds (run i m p).0 (settle i (run i m p).2 s.owner)
        (update s.pc i (run i m p).1) ys
      × Spec xs (run i m p).2 ys

  abbrev MyLocal : Pc → Type 0
  MyLocal = Local m.link m.stack (m.reserved i) s.owner i

  -- The exclusive load of `pop`.
  pop_loads : Goes pop_start
  unfolding run
  pop_loads = elim (Bool-cases (m.stack == null)) [
    | inl empty ↦
        let none_left = Chain-null chain (ground arith) in
        rw empty (xs, keep-Holds inv i false idle tt, (none_left, none_left))
    | inr some_left ↦
        rw some_left
          (xs, keep-Holds inv i true (pop_cached m.stack) (ground arith, λ _. refl), refl)
  ]

  -- The exclusive stores: where the monitor is set, the cached top is the present one.
  push_stores : (b : Block) (c : ℕ) → MyLocal (push_linked b c) → Goes (push_linked b c)
  unfolding run
  push_stores b c l = elim (Bool-cases (m.reserved i)) [
    | inl set ↦
        let below : m.link b ≡ m.stack = ground arith in
        rw set (
          b ∷ xs,
          change-Holds inv i b b none idle (b ∷ xs)
              (cons l.0 (ground (arith, unowned b)) below chain) (λ d h. ground (arith, unowned d))
              (λ j ne h. ground arith) tt,
          refl,
        )
    | inr unset ↦ rw unset (xs, keep-Holds inv i false (push_start b) (l.0, l.1), refl)
  ]

  pop_stores : (c : ℕ) (below : Block) → MyLocal (pop_read c below) → Goes (pop_read c below)
  unfolding run
  pop_stores c below l = elim (Bool-cases (m.reserved i)) [
    | inl set ↦
        let on_top : m.stack ≡ c = ground arith in
        let as_read : m.link m.stack ≡ below = ground arith in
        let (ys, xs_is, rest, new) = Chain-top chain (rw on_top l.0) in
        rw set (
          ys,
          change-Holds inv i below c (some i) idle ys (rw as_read at rest)
              (λ d h. ground (arith, unowned d, xs_is)) (λ j ne h. ground (arith, unowned c, xs_is))
              tt,
          rw (← on_top) xs_is,
        )
    | inr unset ↦ rw unset (xs, keep-Holds inv i false pop_start tt, refl)
  ]

  pub goes : (p : Pc) → s.pc i ≡ p → MyLocal p → Goes p
  unfolding run
  goes idle e l = (xs, quiet-Holds inv i idle tt, refl)
  goes rejected e l = (xs, quiet-Holds inv i rejected tt, refl)
  goes (push_start b) e l =
      (xs, keep-Holds inv i true (push_cached b m.stack) (l.0, l.1, λ _. refl), refl)
  goes (push_cached b c) e l = (
    xs,
    write-Holds inv i b c (push_linked b c) l.1 (l.0, l.1, l.2, update_self m.link b c),
    refl,
  )
  goes (push_linked b c) e l = push_stores b c l
  goes pop_start e l = pop_loads
  goes (pop_cached c) e l =
      (xs, quiet-Holds inv i (pop_read c (m.link c)) (l.0, l.1, λ _. refl), refl)
  goes (pop_read c below) e l = pop_stores c below l
