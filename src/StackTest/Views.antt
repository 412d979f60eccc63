-- ===== src/StackTest/Views.antt =====
-- What one stack of src/tests/test_stack.cpp is to all threads: the component `Stack`, with the threads
-- that call it, and for each block who owns it from there.
use concurrentfw.Prelude.{
  ℕ, zero, suc, ◌≡◌, refl, ◌≢◌, inl, inr, Option, none, some, List, has, update, update_self,
  update_ne, fun_ext, arith, ◌==◌, if◌then◌else◌, ℕ_discrete, subst, Bool-cases,
}
use concurrentfw.Stack.{Block, Memory, Pc, idle, Event, silent, pushed, popped, found_empty}
use concurrentfw.Stack.System.{settle}
use concurrentfw.Stack.Invariant.{Holds}
use concurrentfw.Stack.Ownership.{is_free}
use concurrentfw.StackTest.{
  Place, nowhere, held, on, Worker, Bench, stack_of, memory_of, settle_place,
}

-- For stack `m`, thread `i` is the owner `i + 1`, and 0 is the owner of what is elsewhere: it is on
-- another stack, or not in play.
abbrev pub owner_of : ℕ → Place → Option ℕ
owner_of m nowhere = some 0
owner_of m (held i) = some (suc i)
owner_of m (on n) = if n == m then none else some 0

abbrev pub owners : ℕ → (Block → Place) → Block → Option ℕ
owners m place b = owner_of m (place b)

-- A thread is idle for the stacks that it does not call.
abbrev pub pc_for : ℕ → ℕ → Worker → Pc
pc_for m i w = if stack_of i w == m then w.pc else idle

abbrev pub pcs : ℕ → (ℕ → Worker) → ℕ → Pc
pcs m worker zero = idle
pcs m worker (suc i) = pc_for m i (worker i)

-- The stack keeps to the invariant of `Stack`, and it holds exactly what is free for it.
pub record Kept (s : Bench) (m : ℕ) : Type 0 where
  pub blocks : List Block
  pub holds : Holds (memory_of s m) (owners m s.place) (pcs m s.worker) (s.changes m) blocks
  pub free : (b : Block) → has b blocks ≡ is_free (owners m s.place b)

module _ (m : ℕ) where
  pub owners-update :
      (place : Block → Place) (b : Block) (p : Place)
      → update (owners m place) b (owner_of m p) ≡ owners m (update place b p)
  owners-update place b p = fun_ext (λ d. ground arith)

  -- An access to the stack settles its block as `Stack` has it.
  pub settle-owners :
      (i : ℕ) (e : Event) (place : Block → Place)
      → settle (suc i) e (owners m place) ≡ owners m (settle_place i m e place)
  settle-owners i silent place = refl
  settle-owners i found_empty place = refl
  settle-owners i (pushed b) place = fun_ext (λ d. ground arith)
  settle-owners i (popped b) place = fun_ext (λ d. ground arith)

  pub pcs-update :
      (worker : ℕ → Worker) (i : ℕ) (w : Worker)
      → update (pcs m worker) (suc i) (pc_for m i w) ≡ pcs m (update worker i w)
  pcs-update worker i w = fun_ext each
    where
      each : (j : ℕ) → update (pcs m worker) (suc i) (pc_for m i w) j ≡ pcs m (update worker i w) j
      each zero = ground arith
      each (suc j) = elim (ℕ_discrete i j) [
        | yes e ↦
            rw (← e, update_self (pcs m worker) (suc i) (pc_for m i w), update_self worker i w) refl
        | no ne ↦
            let apart : suc i ≢ suc j = λ e. ne (omega (arith, e)) in
            rw
              (
                update_ne (pcs m worker) (suc i) (suc j) (pc_for m i w) apart,
                update_ne worker i j w ne,
              )
              refl
      ]

  -- A thread that is idle for the stack before and after is as it was.
  pub pcs-quiet :
      (worker : ℕ → Worker) (i : ℕ) (w : Worker)
      → pc_for m i w ≡ pc_for m i (worker i)
      → pcs m (update worker i w) ≡ pcs m worker
  pcs-quiet worker i w same = fun_ext each
    where
      each : (j : ℕ) → pcs m (update worker i w) j ≡ pcs m worker j
      each zero = refl
      each (suc j) = elim (ℕ_discrete i j) [
        | yes e ↦ rw (← e, update_self worker i w) same
        | no ne ↦ rw (update_ne worker i j w ne) refl
      ]

  pub pc_for-idle : (i : ℕ) (w : Worker) → w.pc ≡ idle → pc_for m i w ≡ idle
  pc_for-idle i w e = elim (Bool-cases (stack_of i w == m)) [
    | inl at_m ↦ rw at_m e
    | inr away ↦ rw away refl
  ]

  pub pc_for-away : (i : ℕ) (w : Worker) → stack_of i w ≢ m → pc_for m i w ≡ idle
  pc_for-away i w ne = ground arith

  pub pc_for-here : (i : ℕ) (w : Worker) → stack_of i w ≡ m → pc_for m i w ≡ w.pc
  pc_for-here i w e = ground arith

  -- What is known of the parts of a state as seen from the stack makes the whole.
  pub parts-Kept :
      (t : Bench) {memory : Memory} {owner : Block → Option ℕ} {pc : ℕ → Pc} {changes : ℕ}
      {xs : List Block}
      → Holds memory owner pc changes xs
      → memory ≡ memory_of t m
      → owner ≡ owners m t.place
      → pc ≡ pcs m t.worker
      → changes ≡ t.changes m
      → ((b : Block) → has b xs ≡ is_free (owner b))
      → Kept t m
  parts-Kept t {memory} {owner} {pc} {changes} {xs} holds memory_is owner_is pc_is changes_is free =
      record {
        blocks = xs;
        holds =
            subst (λ c. Holds (memory_of t m) (owners m t.place) (pcs m t.worker) c xs) changes_is
              (subst (λ p. Holds (memory_of t m) (owners m t.place) p changes xs) pc_is
                (subst (λ o. Holds (memory_of t m) o pc changes xs) owner_is
                  (subst (λ m. Holds m owner pc changes xs) memory_is holds)));
        free =
            subst (λ (o : Block → Option ℕ). (b : Block) → has b xs ≡ is_free (o b)) owner_is free;
      }
