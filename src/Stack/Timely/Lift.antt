-- ===== src/Stack/Timely/Lift.antt =====
-- The states of the class `Stack` (src/stack.cpp) as they would be with a counter that never wraps.
use concurrentfw.Prelude.{ℕ, ite, ◌+◌, ◌%◌, ◌^◌, ◌≤◌, ◌≡◌, refl, fun_ext, update, ℕ_discrete, arith}
use concurrentfw.AbaWrapper.{Content, content}
use concurrentfw.Stack.{
  Memory, Pc, idle, push_start, push_cached, push_linked, pop_start, pop_cached, pop_read, rejected,
}
use concurrentfw.Stack.System.{System}

-- The counter starts at 1.
abbrev pub counted : Content → ℕ → Content
counted c n = content c.value (n + 1)

unfoldable pub lift_memory : Memory → ℕ → Memory
lift_memory m n = record { link = m.link; stack = counted m.stack n }

unfoldable pub lift_pc : ℕ → Pc → Pc
lift_pc l idle = idle
lift_pc l (push_start b) = push_start b
lift_pc l (push_cached b c) = push_cached b (counted c l)
lift_pc l (push_linked b c) = push_linked b (counted c l)
lift_pc l pop_start = pop_start
lift_pc l (pop_cached c) = pop_cached (counted c l)
lift_pc l (pop_read c below) = pop_read (counted c l) below
lift_pc l rejected = rejected

unfoldable pub lift : System → (ℕ → ℕ) → System
unfolding lift_memory lift_pc
lift s seen = record {
  memory = lift_memory s.memory s.changes;
  pc = λ i. lift_pc (seen i) (s.pc i);
  owner = s.owner;
  changes = s.changes;
}

-- A cached content is `l` changes old, round the turn.
abbrev pub Counts : ℕ → (n l : ℕ) → Pc → Type 0
Counts w n l (push_cached b c) = (c.counter ≡ (l + 1) % 2 ^ w) × (l ≤ n)
Counts w n l (push_linked b c) = (c.counter ≡ (l + 1) % 2 ^ w) × (l ≤ n)
Counts w n l (pop_cached c) = (c.counter ≡ (l + 1) % 2 ^ w) × (l ≤ n)
Counts w n l (pop_read c below) = (c.counter ≡ (l + 1) % 2 ^ w) × (l ≤ n)
Counts w n l _ = Unit

pub record AllCount (w : ℕ) (s : System) (seen : ℕ → ℕ) : Type 0 where
  pub now : s.memory.stack.counter ≡ (s.changes + 1) % 2 ^ w
  pub cached : (i : ℕ) → Counts w s.changes (seen i) (s.pc i)

pub lift_pc-update :
    (seen : ℕ → ℕ) (pc : ℕ → Pc) (i l : ℕ) (p : Pc)
    → update (λ j. lift_pc (seen j) (pc j)) i (lift_pc l p)
      ≡ (λ j. lift_pc (update seen i l j) (update pc i p j))
lift_pc-update seen pc i l p = fun_ext (λ j.
    elim (ℕ_discrete i j)
      as (λ d.
        ite d (lift_pc l p) (lift_pc (seen j) (pc j))
        ≡ lift_pc (ite d l (seen j)) (ite d p (pc j))) [ yes e ↦ refl | no ne ↦ refl ])

pub Counts-later : (w n n' l : ℕ) (p : Pc) → n ≤ n' → Counts w n l p → Counts w n' l p
Counts-later w n n' l (push_cached b c) le h = (h.0, omega (arith, h.1))
Counts-later w n n' l (push_linked b c) le h = (h.0, omega (arith, h.1))
Counts-later w n n' l (pop_cached c) le h = (h.0, omega (arith, h.1))
Counts-later w n n' l (pop_read c below) le h = (h.0, omega (arith, h.1))
Counts-later w n n' l idle le h = tt
Counts-later w n n' l (push_start b) le h = tt
Counts-later w n n' l pop_start le h = tt
Counts-later w n n' l rejected le h = tt
