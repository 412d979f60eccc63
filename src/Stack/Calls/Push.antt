-- ===== src/Stack/Calls/Push.antt =====
-- The accesses of a whole `push` (src/stack.cpp) make up a call of `modify`.
use concurrentfw.Prelude.{
  ℕ, zero, suc, ◌+◌, ◌*◌, ◌%◌, ◌^◌, ◌≤◌, ◌≡◌, refl, ◌≢◌, inl, inr, Bool, true, false, Option, some,
  List, [], ◌∷◌, arith, Bool-cases, length, update, update_twice, ◌∙◌,
}
use concurrentfw.AbaWrapper.{Content, content, same}
use concurrentfw.AbaWrapper.Dwcas.{others, rest, next, modify_loop, modify}
use concurrentfw.AbaWrapper.Lockfree.{Seen, at_load, after, loop_hit, loop_miss}
use concurrentfw.Stack.{Block, null, Memory, push_cached, Event, pushed, push_entry, run}
use concurrentfw.Stack.Calls.{drive, push_lambda, same_refl}

-- What a `push` of `b` from `m` comes to, beside a call of `modify`: the content that it replaces and
-- what is left of the interferences when it does.
pub record Pushes (w : ℕ) (env : List (Content → Content)) (m : Memory) (b : Block)
    (driven : Option (Memory × Event)) (modified : Option (Content × Bool)) : Type 0 where
  pub replaced : Content
  pub left : List (Content → Content)
  pub held : Seen env m.stack left replaced
  pub held_at_swap : same (others left replaced) replaced ≡ true
  pub drives :
      driven
      ≡ some (
        record {
          link = update m.link b replaced.value;
          stack = content b ((replaced.counter + 1) % 2 ^ w);
        },
        pushed b,
      )
  pub modifies : modified ≡ some (content b ((replaced.counter + 1) % 2 ^ w), true)

module _ (w : ℕ) where
  push_round_hit :
      (fuel : ℕ) (env : List (Content → Content)) (m : Memory) (b : Block)
      → same (others env m.stack) m.stack ≡ true
      → drive w (suc (suc fuel)) env m (push_cached b m.stack)
        ≡ some (record { link = update m.link b m.stack.value; stack = next w m.stack b }, pushed b)
  unfolding drive run
  push_round_hit fuel env m b hit = ground arith

  push_round_miss :
      (fuel : ℕ) (env : List (Content → Content)) (m : Memory) (b : Block)
      → same (others env m.stack) m.stack ≡ false
      → drive w (suc (suc fuel)) env m (push_cached b m.stack)
        ≡ drive w fuel
            (rest env)
            (record { link = update m.link b m.stack.value; stack = others env m.stack })
            (push_cached b (others env m.stack))
  unfolding drive run
  push_round_miss fuel env m b miss = ground arith

  push_lands :
      (fuel k : ℕ) (env : List (Content → Content)) (m : Memory) (b : Block)
      → same (others env m.stack) m.stack ≡ true
      → Pushes w env m b
          (drive w (suc (suc fuel)) env m (push_cached b m.stack))
          (modify_loop w (push_lambda b) (suc k) env m.stack m.stack)
  unfolding push_lambda next
  push_lands fuel k env m b hit = record {
    replaced = m.stack;
    left = env;
    held = at_load;
    held_at_swap = hit;
    drives = push_round_hit fuel env m b hit;
    modifies = loop_hit w (push_lambda b) k env m.stack m.stack b refl hit;
  }

  push_loop :
      (env : List (Content → Content)) (fuel : ℕ) (m : Memory) (b : Block)
      → 2 * length env + 2 ≤ fuel
      → Pushes w env m b
          (drive w fuel env m (push_cached b m.stack))
          (modify_loop w (push_lambda b) (suc (length env)) env m.stack m.stack)
  unfolding others rest push_lambda
  push_loop env zero m b h = absurd (omega arith)
  push_loop env (suc zero) m b h = absurd (omega arith)
  push_loop [] (suc (suc fuel)) m b h = push_lands fuel 0 [] m b (same_refl m.stack)
  push_loop (f ∷ fs) (suc (suc fuel)) m b h = elim (Bool-cases (same (f m.stack) m.stack)) [
    | inl hit ↦ push_lands fuel (suc (length fs)) (f ∷ fs) m b hit
    | inr miss ↦
        let linked = update m.link b m.stack.value in
        let again =
          push_loop fs fuel (record { link = linked; stack = f m.stack }) b (omega arith) in
        record {
          replaced = again.replaced;
          left = again.left;
          held = after again.held;
          held_at_swap = again.held_at_swap;
          drives =
              push_round_miss fuel (f ∷ fs) m b miss
              ∙ (rw (update_twice m.link b m.stack.value again.replaced.value) at again.drives);
          modifies =
              loop_miss w (push_lambda b) (suc (length fs)) (f ∷ fs) m.stack m.stack b refl miss
              ∙ again.modifies;
        }
  ]

  push_begins :
      (fuel : ℕ) (env : List (Content → Content)) (m : Memory) (b : Block)
      → b ≢ null
      → drive w (suc fuel) env m (push_entry b) ≡ drive w fuel env m (push_cached b m.stack)
  unfolding drive run push_entry
  push_begins fuel env m b ne = ground arith

  -- The accesses of a `push` of a block that is not null come to an end, whatever other threads do to
  -- the content ahead of each compare-and-swap. They replace a content that memory held and that it
  -- holds again at the swap: the value becomes the block, the counter one more modulo 2 ^ w, and the
  -- block's link is the replaced value. No other link changes, and `modify` leaves the same content
  -- when it is called with the lambda of `push`.
  pub drive-push :
      (env : List (Content → Content)) (m : Memory) (b : Block)
      → b ≢ null
      → Pushes w env m b
          (drive w (2 * length env + 3) env m (push_entry b))
          (modify w (push_lambda b) env m.stack)
  unfolding modify
  drive-push env m b ne =
      let bound : 2 * length env + 3 ≡ suc (2 * length env + 2) = omega arith in
      rw (bound, push_begins (2 * length env + 2) env m b ne)
        (push_loop env (2 * length env + 2) m b (omega arith))
