-- ===== src/Stack/Llsc/Calls/Push.antt =====
-- The accesses of a whole `push` (src/stack.cpp) over LLSC make up a call of `modify`.
use concurrentfw.Prelude.{
  ℕ, zero, suc, ◌+◌, ◌*◌, ◌≤◌, ◌≡◌, refl, ◌≢◌, inl, inr, Bool, true, false, Option, some, List, [],
  ◌∷◌, arith, Bool-cases, length, update, update_self, update_twice, ◌∙◌,
}
use concurrentfw.Arm.{Monitor}
use concurrentfw.AbaWrapper.Llsc.{
  Meanwhile, quiet, stored_by_other, cleared, disturb, following, is_quiet, modify_loop, modify,
  Held, at_start, round_stores, round_fails,
}
use concurrentfw.Stack.{Block, null, Event, pushed}
use concurrentfw.Stack.Calls.{push_lambda}
use concurrentfw.Stack.Llsc.{Memory, view, push_start, push_entry, run}
use concurrentfw.Stack.Llsc.Calls.{drive, after_round, after_round-Held}

-- What a `push` of `b` from `m` comes to, beside a call of `modify`: the word that it replaces and what
-- is left of the interferences when it loads that word.
pub record Pushes (env : List Meanwhile) (m : Memory) (b : Block) (driven : Option (Memory × Event))
    (modified : Option (Monitor ℕ × Bool)) : Type 0 where
  pub replaced : ℕ
  pub left : List Meanwhile
  pub held : Held env m.stack left replaced
  pub undisturbed_until_store : is_quiet left ≡ true
  pub drives :
      driven
      ≡ some
          (record { link = update m.link b replaced; stack = b; reserved = λ _. false }, pushed b)
  pub modifies : modified ≡ some (record { memory = b; reserved = false }, true)

module _ (i : ℕ) where
  push_round_stores :
      (fuel : ℕ) (env : List Meanwhile) (m : Memory) (b : Block)
      → is_quiet env ≡ true
      → drive i (suc (suc (suc fuel))) env m (push_start b)
        ≡ some
            (record { link = update m.link b m.stack; stack = b; reserved = λ _. false }, pushed b)
  unfolding drive run disturb
  push_round_stores fuel [] m b q = ground (arith, update_self m.reserved i true)
  push_round_stores fuel (quiet ∷ env) m b q = ground (arith, update_self m.reserved i true)
  push_round_stores fuel (stored_by_other v ∷ env) m b q = absurd (cc)
  push_round_stores fuel (cleared ∷ env) m b q = absurd (cc)

  push_round_fails :
      (fuel : ℕ) (env : List Meanwhile) (m : Memory) (b : Block)
      → is_quiet env ≡ false
      → (r : ℕ → Bool) × (drive i (suc (suc (suc fuel))) env m (push_start b)
          ≡ drive i fuel
              (following env)
              (record {
                link = update m.link b m.stack;
                stack = after_round env m.stack;
                reserved = r;
              })
              (push_start b))
  unfolding drive run disturb following
  push_round_fails fuel [] m b q = absurd (cc)
  push_round_fails fuel (quiet ∷ env) m b q = absurd (cc)
  push_round_fails fuel (stored_by_other v ∷ env) m b q =
      (update (update (update m.reserved i true) i false) i false, ground arith)
  push_round_fails fuel (cleared ∷ env) m b q =
      (update (update (update m.reserved i true) i false) i false, ground arith)

  push_lands :
      (fuel : ℕ) (env : List Meanwhile) (m : Memory) (b : Block) (set : Bool)
      → is_quiet env ≡ true
      → Pushes env m b (drive i (suc (suc (suc fuel))) env m (push_start b)) (
          modify_loop
            (push_lambda b)
            (suc (length env))
            env
            (record { memory = m.stack; reserved = set }))
  unfolding push_lambda
  push_lands fuel env m b set q = record {
    replaced = m.stack;
    left = env;
    held = at_start;
    undisturbed_until_store = q;
    drives = push_round_stores fuel env m b q;
    modifies =
        round_stores (push_lambda b) (length env) env (record { memory = m.stack; reserved = set })
          b refl q;
  }

  push_loop :
      (env : List Meanwhile) (fuel : ℕ) (m : Memory) (b : Block) (set : Bool)
      → 3 * length env + 3 ≤ fuel
      → Pushes env m b (drive i fuel env m (push_start b)) (
          modify_loop
            (push_lambda b)
            (suc (length env))
            env
            (record { memory = m.stack; reserved = set }))
  unfolding push_lambda following
  push_loop env zero m b set h = absurd (omega arith)
  push_loop env (suc zero) m b set h = absurd (omega arith)
  push_loop env (suc (suc zero)) m b set h = absurd (omega arith)
  push_loop [] (suc (suc (suc fuel))) m b set h = push_lands fuel [] m b set refl
  push_loop (e ∷ env) (suc (suc (suc fuel))) m b set h = elim (Bool-cases (is_quiet (e ∷ env))) [
    | inl q ↦ push_lands fuel (e ∷ env) m b set q
    | inr q ↦
        let (r, round) = push_round_fails fuel (e ∷ env) m b q in
        let m' : Memory = record {
          link = update m.link b m.stack;
          stack = after_round (e ∷ env) m.stack;
          reserved = r;
        } in
        let again = push_loop env fuel m' b false (omega arith) in
        record {
          replaced = again.replaced;
          left = again.left;
          held = after_round-Held e again.held;
          undisturbed_until_store = again.undisturbed_until_store;
          drives = round ∙ (rw (update_twice m.link b m.stack again.replaced) at again.drives);
          modifies =
              round_fails (push_lambda b) (suc (length env)) (e ∷ env)
                (record { memory = m.stack; reserved = set }) b refl q
              ∙ again.modifies;
        }
  ]

  -- Over LLSC, the accesses of a `push` of a block that is not null come to an end, whatever happens
  -- to the processor's view of the word ahead of each exclusive store. They replace a word that memory
  -- held at an exclusive load and that nothing has touched since: it becomes the block, and the
  -- block's link is the replaced word. No other link changes, no monitor is left set, and `modify`
  -- leaves the same word when it is called with the lambda of `push`.
  pub llsc_drive-push :
      (env : List Meanwhile) (m : Memory) (b : Block)
      → b ≢ null
      → Pushes env m b
          (drive i (3 * length env + 3) env m (push_entry b))
          (modify (push_lambda b) env (view i m))
  unfolding modify push_entry
  llsc_drive-push env m b ne =
      let starts : push_entry b ≡ push_start b = ground arith in
      rw starts (push_loop env (3 * length env + 3) m b (m.reserved i) (omega arith))
