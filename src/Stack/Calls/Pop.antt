-- ===== src/Stack/Calls/Pop.antt =====
-- The accesses of a whole `pop` (src/stack.cpp) make up a call of `modify`.
use concurrentfw.Prelude.{
  ℕ, zero, suc, ◌+◌, ◌*◌, ◌%◌, ◌^◌, ◌≤◌, ◌≡◌, ◌≢◌, inl, inr, Bool, true, false, Option, some, List,
  [], ◌∷◌, arith, Bool-cases, ℕ_discrete, length, ◌∙◌,
}
use concurrentfw.AbaWrapper.{Content, content, same}
use concurrentfw.AbaWrapper.Dwcas.{others, rest, next, modify_loop, modify}
use concurrentfw.AbaWrapper.Lockfree.{Seen, at_load, after, loop_hit, loop_miss, loop_declines}
use concurrentfw.Stack.{null, Memory, pop_start, pop_cached, Event, popped, found_empty, run}
use concurrentfw.Stack.Calls.{drive, pop_lambda, same_refl}

-- What a `pop` from `m` comes to, beside a call of `modify`: `c` is the content that it replaces or
-- finds empty, and `left` what is left of the interferences then.
pub data Pops (w : ℕ) (env : List (Content → Content)) (m : Memory)
    (driven : Option (Memory × Event)) (modified : Option (Content × Bool)) : Type 0 where
  takes :
      (c : Content) (left : List (Content → Content))
      → Seen env m.stack left c
      → same (others left c) c ≡ true
      → c.value ≢ null
      → driven
        ≡ some (
          record m { stack = content (m.link c.value) ((c.counter + 1) % 2 ^ w) },
          popped c.value,
        )
      → modified ≡ some (content (m.link c.value) ((c.counter + 1) % 2 ^ w), true)
      → Pops w env m driven modified
  is_empty :
      (c : Content) (left : List (Content → Content))
      → Seen env m.stack left c
      → c.value ≡ null
      → driven ≡ some (record m { stack = c }, found_empty)
      → modified ≡ some (c, false)
      → Pops w env m driven modified

module _ (w : ℕ) where
  pop_lands :
      (fuel k : ℕ) (env : List (Content → Content)) (m : Memory)
      → m.stack.value ≢ null
      → same (others env m.stack) m.stack ≡ true
      → Pops w env m
          (drive w (suc (suc fuel)) env m (pop_cached m.stack))
          (modify_loop w (pop_lambda m.link) (suc k) env m.stack m.stack)
  unfolding drive run pop_lambda next
  pop_lands fuel k env m ne hit = takes m.stack env at_load hit ne (ground arith) (
      loop_hit w (pop_lambda m.link) k env m.stack m.stack (m.link m.stack.value) (ground arith)
        hit)

  pop_round_empty :
      (fuel : ℕ) (env : List (Content → Content)) (m : Memory)
      → same (others env m.stack) m.stack ≡ false
      → (others env m.stack).value ≡ null
      → drive w (suc (suc fuel)) env m (pop_cached m.stack)
        ≡ some (record m { stack = others env m.stack }, found_empty)
  unfolding drive run
  pop_round_empty fuel env m miss empty = ground arith

  pop_round_miss :
      (fuel : ℕ) (env : List (Content → Content)) (m : Memory)
      → same (others env m.stack) m.stack ≡ false
      → (others env m.stack).value ≢ null
      → drive w (suc (suc fuel)) env m (pop_cached m.stack)
        ≡ drive w fuel
            (rest env)
            (record m { stack = others env m.stack })
            (pop_cached (others env m.stack))
  unfolding drive run
  pop_round_miss fuel env m miss ne = ground arith

  prepend :
      {f : Content → Content} {fs : List (Content → Content)} {m : Memory}
      {driven : Option (Memory × Event)} {modified : Option (Content × Bool)}
      → Pops w fs (record m { stack = f m.stack }) driven modified
      → Pops w (f ∷ fs) m driven modified
  prepend (takes c left held at_swap ne d e) = takes c left (after held) at_swap ne d e
  prepend (is_empty c left held z d e) = is_empty c left (after held) z d e

  pop_loop :
      (env : List (Content → Content)) (fuel : ℕ) (m : Memory)
      → 2 * length env + 2 ≤ fuel
      → m.stack.value ≢ null
      → Pops w env m
          (drive w fuel env m (pop_cached m.stack))
          (modify_loop w (pop_lambda m.link) (suc (length env)) env m.stack m.stack)
  unfolding others rest pop_lambda
  pop_loop env zero m h ne = absurd (omega arith)
  pop_loop env (suc zero) m h ne = absurd (omega arith)
  pop_loop [] (suc (suc fuel)) m h ne = pop_lands fuel 0 [] m ne (same_refl m.stack)
  pop_loop (f ∷ fs) (suc (suc fuel)) m h ne = elim (Bool-cases (same (f m.stack) m.stack)) [
    | inl hit ↦ pop_lands fuel (suc (length fs)) (f ∷ fs) m ne hit
    | inr miss ↦
        let again =
          loop_miss w (pop_lambda m.link) (suc (length fs)) (f ∷ fs) m.stack m.stack
            (m.link m.stack.value) (ground arith) miss in
        elim (ℕ_discrete (f m.stack).value null) [
          | yes empty ↦
              is_empty (f m.stack) fs (after at_load) empty
                (pop_round_empty fuel (f ∷ fs) m miss empty)
                (again
                  ∙ loop_declines w (pop_lambda m.link) (length fs) fs (f m.stack) (f m.stack)
                      (ground arith))
          | no some_left ↦
              rw (pop_round_miss fuel (f ∷ fs) m miss some_left, again)
                (prepend
                  (pop_loop fs fuel (record m { stack = f m.stack }) (omega arith) some_left))
        ]
  ]

  pop_begins :
      (fuel : ℕ) (env : List (Content → Content)) (m : Memory)
      → m.stack.value ≢ null
      → drive w (suc fuel) env m pop_start ≡ drive w fuel env m (pop_cached m.stack)
  unfolding drive run
  pop_begins fuel env m ne = ground arith

  pop_empty :
      (fuel : ℕ) (env : List (Content → Content)) (m : Memory)
      → m.stack.value ≡ null
      → Pops w env m (drive w (suc fuel) env m pop_start) (modify w (pop_lambda m.link) env m.stack)
  unfolding drive run modify pop_lambda
  pop_empty fuel env m z =
      is_empty m.stack env at_load z (ground arith)
        (loop_declines w (pop_lambda m.link) (length env) env m.stack m.stack (ground arith))

  -- The accesses of a `pop` come to an end, whatever other threads do to the content ahead of each
  -- compare-and-swap. Either they replace a content that memory held and that it holds again at the
  -- swap: its value, which is not null, is the block that is popped, the new value is the block's link,
  -- and the counter is one more modulo 2 ^ w. Or they find the stack empty, at a content that memory
  -- held and whose value is null. They write to no link, and `modify` leaves the same content and says
  -- the same when it is called with the lambda of `pop`.
  pub drive-pop :
      (env : List (Content → Content)) (m : Memory)
      → Pops w env m
          (drive w (2 * length env + 3) env m pop_start)
          (modify w (pop_lambda m.link) env m.stack)
  unfolding modify
  drive-pop env m =
      let bound : 2 * length env + 3 ≡ suc (2 * length env + 2) = omega arith in
      elim (ℕ_discrete m.stack.value null) [
        | yes z ↦ rw bound (pop_empty (2 * length env + 2) env m z)
        | no ne ↦
            rw (bound, pop_begins (2 * length env + 2) env m ne)
              (pop_loop env (2 * length env + 2) m (omega arith) ne)
      ]
