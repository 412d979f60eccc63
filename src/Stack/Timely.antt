-- ===== src/Stack/Timely.antt =====
-- Runs of the class `Stack` (src/stack.cpp) of any length, in which the counter may wrap round, but not
-- while a thread is between its look at the stack and its compare-and-swap.
pub mod Lift
pub mod Access
pub mod Moves
pub mod Safe
mod Examples
use concurrentfw.Prelude.{ℕ, ◌+◌, ◌^◌, ◌<◌, ◌≡◌, Option, List, [], ◌∷◌, ◌++◌, update}
use concurrentfw.Stack.{Block, Pc, push_start, push_linked, pop_start, pop_read, Event}
use concurrentfw.Stack.System
use concurrentfw.Stack.System.{access}

-- `n` is the number of changes to the stack so far, and `l` what it was when the thread last looked
-- at the content of the wrapper: a load and a compare-and-swap both do.
unfoldable pub look : Pc → (n l : ℕ) → ℕ
look (push_start b) n l = n
look (push_linked b c) n l = n
look pop_start n l = n
look (pop_read c below) n l = n
look _ n l = l

-- A compare-and-swap comes before the counter of `w` bits has made a whole turn.
abbrev pub InTime : ℕ → (n l : ℕ) → Pc → Type 0
InTime w n l (push_linked b c) = n < l + 2 ^ w
InTime w n l (pop_read c below) = n < l + 2 ^ w
InTime w n l _ = Unit

module _ (w : ℕ) where
  abbrev pub IsTimely : {s t : System.System} {e : Event} → (ℕ → ℕ) → System.Step w s e t → Type 0
  IsTimely {s} seen (access i) = InTime w s.changes (seen i) (s.pc i)
  IsTimely seen _ = Unit

  unfoldable pub looked : {s t : System.System} {e : Event} → (ℕ → ℕ) → System.Step w s e t → ℕ → ℕ
  unfolding look
  looked {s} seen (access i) = update seen i (look (s.pc i) s.changes (seen i))
  looked seen _ = seen

  -- The last argument is the number of changes that each thread has seen.
  pub data Run (link : Block → ℕ) (owner : Block → Option ℕ)
      : List Event → System.System → (ℕ → ℕ) → Type 0 where
    start : Run link owner [] (System.init link owner) (λ _. 0)
    later :
        {es : List Event} {s t : System.System} {seen : ℕ → ℕ} {e : Event}
        → Run link owner es s seen
        → (st : System.Step w s e t) → IsTimely seen st
        → Run link owner (es ++ e ∷ []) t (looked seen st)
