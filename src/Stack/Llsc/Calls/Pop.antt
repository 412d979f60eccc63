-- ===== src/Stack/Llsc/Calls/Pop.antt =====
-- The accesses of a whole `pop` (src/stack.cpp) over LLSC make up a call of `modify`.
use concurrentfw.Prelude.{
  ℕ, zero, suc, ◌+◌, ◌*◌, ◌≤◌, ◌≡◌, refl, ◌≢◌, inl, inr, Bool, true, false, Option, some, List, [],
  ◌∷◌, arith, Bool-cases, ℕ_discrete, length, update, update_self,
}
use concurrentfw.Arm.{Monitor}
use concurrentfw.AbaWrapper.Llsc.{
  Meanwhile, quiet, stored_by_other, cleared, disturb, following, is_quiet, modify_loop, modify,
  Held, at_start, round_declines, round_stores, round_fails,
}
use concurrentfw.Stack.{null, Event, popped, found_empty}
use concurrentfw.Stack.Calls.{pop_lambda}
use concurrentfw.Stack.Llsc.{Memory, view, pop_start, run}
use concurrentfw.Stack.Llsc.Calls.{drive, after_round, after_round-Held}

-- What a `pop` from `m` comes to, beside a call of `modify`: `u` is the word that it replaces or finds
-- null, and `left` what is left of the interferences when it loads that word.
pub data Pops (i : ℕ) (env : List Meanwhile) (m : Memory) (driven : Option (Memory × Event))
    (modified : Option (Monitor ℕ × Bool)) : Type 0 where
  takes :
      (u : ℕ) (left : List Meanwhile)
      → Held env m.stack left u
      → is_quiet left ≡ true
      → u ≢ null
      → driven ≡ some (record { link = m.link; stack = m.link u; reserved = λ _. false }, popped u)
      → modified ≡ some (record { memory = m.link u; reserved = false }, true)
      → Pops i env m driven modified
  is_empty :
      (u : ℕ) (left : List Meanwhile) (reserved' : ℕ → Bool)
      → Held env m.stack left u
      → u ≡ null
      → reserved' i ≡ false
      → driven ≡ some (record { link = m.link; stack = u; reserved = reserved' }, found_empty)
      → modified ≡ some (record { memory = u; reserved = false }, false)
      → Pops i env m driven modified

module _ (i : ℕ) where
  pop_round_stores :
      (fuel : ℕ) (env : List Meanwhile) (m : Memory)
      → is_quiet env ≡ true
      → m.stack ≢ null
      → drive i (suc (suc (suc fuel))) env m pop_start
        ≡ some (
          record { link = m.link; stack = m.link m.stack; reserved = λ _. false },
          popped m.stack,
        )
  unfolding drive run disturb
  pop_round_stores fuel [] m q ne = ground (arith, update_self m.reserved i true)
  pop_round_stores fuel (quiet ∷ env) m q ne = ground (arith, update_self m.reserved i true)
  pop_round_stores fuel (stored_by_other v ∷ env) m q ne = absurd (cc)
  pop_round_stores fuel (cleared ∷ env) m q ne = absurd (cc)

  pop_round_fails :
      (fuel : ℕ) (env : List Meanwhile) (m : Memory)
      → is_quiet env ≡ false
      → m.stack ≢ null
      → (r : ℕ → Bool) × (drive i (suc (suc (suc fuel))) env m pop_start
          ≡ drive i fuel
              (following env)
              (record { link = m.link; stack = after_round env m.stack; reserved = r })
              pop_start)
  unfolding drive run disturb following
  pop_round_fails fuel [] m q ne = absurd (cc)
  pop_round_fails fuel (quiet ∷ env) m q ne = absurd (cc)
  pop_round_fails fuel (stored_by_other v ∷ env) m q ne =
      (update (update (update m.reserved i true) i false) i false, ground arith)
  pop_round_fails fuel (cleared ∷ env) m q ne =
      (update (update (update m.reserved i true) i false) i false, ground arith)

  pop_round_empty :
      (fuel : ℕ) (env : List Meanwhile) (m : Memory)
      → m.stack ≡ null
      → drive i (suc fuel) env m pop_start
        ≡ some (record m { reserved = update m.reserved i false }, found_empty)
  unfolding drive run
  pop_round_empty fuel env m z = ground arith

  pop_declines :
      (fuel : ℕ) (env : List Meanwhile) (m : Memory) (set : Bool)
      → m.stack ≡ null
      → Pops i env m (drive i (suc fuel) env m pop_start) (
          modify_loop
            (pop_lambda m.link)
            (suc (length env))
            env
            (record { memory = m.stack; reserved = set }))
  unfolding pop_lambda
  pop_declines fuel env m set z =
      is_empty m.stack env (update m.reserved i false) at_start z (update_self m.reserved i false)
        (pop_round_empty fuel env m z)
        (round_declines (pop_lambda m.link) (length env) env
          (record { memory = m.stack; reserved = set }) (ground arith))

  pop_lands :
      (fuel : ℕ) (env : List Meanwhile) (m : Memory) (set : Bool)
      → is_quiet env ≡ true
      → m.stack ≢ null
      → Pops i env m (drive i (suc (suc (suc fuel))) env m pop_start) (
          modify_loop
            (pop_lambda m.link)
            (suc (length env))
            env
            (record { memory = m.stack; reserved = set }))
  unfolding pop_lambda
  pop_lands fuel env m set q ne =
      takes m.stack env at_start q ne (pop_round_stores fuel env m q ne) (
        round_stores (pop_lambda m.link) (length env) env
          (record { memory = m.stack; reserved = set }) (m.link m.stack) (ground arith) q)

  prepend :
      (e : Meanwhile) {env : List Meanwhile} {m : Memory} (r : ℕ → Bool)
      {driven : Option (Memory × Event)} {modified : Option (Monitor ℕ × Bool)}
      → Pops i env
          (record { link = m.link; stack = after_round (e ∷ env) m.stack; reserved = r })
          driven
          modified
      → Pops i (e ∷ env) m driven modified
  prepend e r (takes u left held q ne d s) = takes u left (after_round-Held e held) q ne d s
  prepend e r (is_empty u left r' held z off d s) =
      is_empty u left r' (after_round-Held e held) z off d s

  pop_loop :
      (env : List Meanwhile) (fuel : ℕ) (m : Memory) (set : Bool)
      → 3 * length env + 3 ≤ fuel
      → Pops i env m (drive i fuel env m pop_start) (
          modify_loop
            (pop_lambda m.link)
            (suc (length env))
            env
            (record { memory = m.stack; reserved = set }))
  unfolding pop_lambda following
  pop_loop env zero m set h = absurd (omega arith)
  pop_loop env (suc zero) m set h = absurd (omega arith)
  pop_loop env (suc (suc zero)) m set h = absurd (omega arith)
  pop_loop [] (suc (suc (suc fuel))) m set h = elim (ℕ_discrete m.stack null) [
    | yes z ↦ pop_declines (suc (suc fuel)) [] m set z
    | no ne ↦ pop_lands fuel [] m set refl ne
  ]
  pop_loop (e ∷ env) (suc (suc (suc fuel))) m set h = elim (ℕ_discrete m.stack null) [
    | yes z ↦ pop_declines (suc (suc fuel)) (e ∷ env) m set z
    | no ne ↦ elim (Bool-cases (is_quiet (e ∷ env))) [
      | inl q ↦ pop_lands fuel (e ∷ env) m set q ne
      | inr q ↦
          let (r, round) = pop_round_fails fuel (e ∷ env) m q ne in
          let m1 : Memory = record {
            link = m.link;
            stack = after_round (e ∷ env) m.stack;
            reserved = r;
          } in
          let again =
            round_fails (pop_lambda m.link) (suc (length env)) (e ∷ env)
              (record { memory = m.stack; reserved = set }) (m.link m.stack) (ground arith) q in
          rw (round, again) (prepend e r (pop_loop env fuel m1 false (omega arith)))
    ]
  ]

  -- Over LLSC, the accesses of a `pop` come to an end, whatever happens to the processor's view of
  -- the word ahead of each exclusive store. Either they replace a word that memory held at an exclusive
  -- load and that nothing has touched since: it is not null and is the block that is popped, the new
  -- word is the block's link, and no monitor is left set. Or they find the stack empty, at a null word
  -- that memory held, and clear the processor's own monitor. They write to no link, and `modify` leaves
  -- the same word and says the same when it is called with the lambda of `pop`.
  pub llsc_drive-pop :
      (env : List Meanwhile) (m : Memory)
      → Pops i env m
          (drive i (3 * length env + 3) env m pop_start)
          (modify (pop_lambda m.link) env (view i m))
  unfolding modify
  llsc_drive-pop env m = pop_loop env (3 * length env + 3) m (m.reserved i) (omega arith)
