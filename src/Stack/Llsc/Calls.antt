-- ===== src/Stack/Llsc/Calls.antt =====
-- The accesses of a whole `push` or `pop` (src/stack.cpp) over LLSC make up the call of `modify`
-- (src/concurrentfw/aba_wrapper.hpp) with the lambda of the source.
pub mod Push
pub mod Pop
use concurrentfw.Prelude.{
  ℕ, zero, suc, ◌+◌, ◌*◌, ◌≤◌, ◌≡◌, refl, ◌≢◌, ◌⊎◌, inl, inr, Bool, true, false, Option, none, some,
  List, [], ◌∷◌, arith, ◌==◌, if◌then◌else◌, Bool-cases, ℕ_discrete, length, update, update_self,
  update_twice, ◌∙◌,
}
use concurrentfw.Arm.{Monitor}
use concurrentfw.AbaWrapper.Llsc.{
  Meanwhile, quiet, stored_by_other, cleared, disturb, following, is_quiet, modify_loop, modify,
  Held, undisturbed, unmonitored, overwritten, round_declines, round_stores, round_fails,
}
use concurrentfw.Stack.{Block, null, Event, silent, pushed, popped, found_empty}
use concurrentfw.Stack.Calls.{push_lambda, pop_lambda}
use concurrentfw.Stack.Llsc.{
  Memory, view, Pc, idle, push_start, push_cached, push_linked, pop_start, pop_cached, pop_read,
  rejected, push_entry, run,
}

-- before the exclusive store
abbrev pub at_store : Pc → Bool
at_store (push_linked b c) = true
at_store (pop_read c below) = true
at_store _ = false

abbrev pub disturbed : ℕ → Pc → List Meanwhile → Memory → Memory
disturbed i p env m =
    let v = disturb env (view i m) in
    if at_store p
    then record m { stack = v.memory; reserved = update m.reserved i v.reserved }
    else m

abbrev pub left : Pc → List Meanwhile → List Meanwhile
left p env = if at_store p then following env else env

abbrev pub ended : Pc → Bool
ended idle = true
ended rejected = true
ended _ = false

-- The accesses of one call of thread `i` in a row, with what happens to its processor's view of the
-- word ahead of each exclusive store.
unfoldable pub drive : ℕ → ℕ → List Meanwhile → Memory → Pc → Option (Memory × Event)
drive i zero env m p = none
drive i (suc fuel) env m p =
    let (m', p', e) = run i (disturbed i p env m) p in
    let again = drive i fuel (left p env) m' p' in if ended p' then some (m', e) else again

-- The word after a round that failed.
abbrev pub after_round : List Meanwhile → ℕ → ℕ
after_round env v = (disturb env (record { memory = v; reserved = true })).memory

-- What memory held from the second round on, it held in the whole call.
pub after_round-Held :
    (e : Meanwhile) {env left : List Meanwhile} {v u : ℕ}
    → Held env (after_round (e ∷ env) v) left u
    → Held (e ∷ env) v left u
unfolding disturb
after_round-Held quiet h = undisturbed h
after_round-Held (stored_by_other x) h = overwritten h
after_round-Held cleared h = unmonitored h
