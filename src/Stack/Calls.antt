-- ===== src/Stack/Calls.antt =====
-- The accesses of a whole `push` or `pop` (src/stack.cpp) over DWCAS make up the call of `modify`
-- (src/concurrentfw/aba_wrapper.hpp) with the lambda of the source.
pub mod Push
pub mod Pop
use concurrentfw.Prelude.{
  ℕ, zero, suc, ◌+◌, ◌*◌, ◌≤◌, ◌≡◌, refl, ◌≢◌, ◌⊎◌, inl, inr, Bool, true, false, Option, none, some,
  List, [], ◌∷◌, arith, ◌==◌, if◌then◌else◌, Bool-cases, ℕ_discrete, length, update, update_ne, ◌∙◌,
}
use concurrentfw.AbaWrapper.{Content, same}
use concurrentfw.AbaWrapper.Dwcas.{others, rest, next, modify_loop, modify}
use concurrentfw.AbaWrapper.Lockfree.{loop_hit, loop_miss, loop_declines}
use concurrentfw.Stack.{
  Block, null, Memory, Pc, idle, push_start, push_cached, push_linked, pop_start, pop_cached,
  pop_read, rejected, Event, silent, pushed, popped, found_empty, push_entry, run,
}

-- before the compare-and-swap
abbrev pub at_swap : Pc → Bool
at_swap (push_linked b c) = true
at_swap (pop_read c below) = true
at_swap _ = false

abbrev pub disturbed : Pc → List (Content → Content) → Memory → Memory
disturbed p env m = if at_swap p then record m { stack = others env m.stack } else m

abbrev pub left : Pc → List (Content → Content) → List (Content → Content)
left p env = if at_swap p then rest env else env

abbrev pub ended : Pc → Bool
ended idle = true
ended rejected = true
ended _ = false

-- The accesses of one call in a row, with what other threads do to the wrapper's content ahead of
-- each compare-and-swap.
unfoldable pub drive : ℕ → ℕ → List (Content → Content) → Memory → Pc → Option (Memory × Event)
drive w zero env m p = none
drive w (suc fuel) env m p =
    let (m', p', e) = run w (disturbed p env m) p in
    let again = drive w fuel (left p env) m' p' in if ended p' then some (m', e) else again

-- the lambdas
unfoldable pub push_lambda : Block → ℕ → Option ℕ
push_lambda block stack_cached = some block

unfoldable pub pop_lambda : (Block → ℕ) → ℕ → Option ℕ
pop_lambda link stack_cached = if stack_cached == null then none else some (link stack_cached)

pub same_refl : (c : Content) → same c c ≡ true
same_refl c = ground arith
