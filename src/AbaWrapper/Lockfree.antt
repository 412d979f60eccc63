-- ===== src/AbaWrapper/Lockfree.antt =====
-- `modify` of src/concurrentfw/aba_wrapper.hpp with DWCAS ends, and takes effect at one moment.
use concurrentfw.Prelude.{
  ℕ, zero, suc, ◌+◌, ◌%◌, ◌^◌, ◌<◌, ◌≡◌, inl, inr, Bool, true, false, Option, none, some, List, [],
  ◌∷◌, arith, length, Bool-cases, Option-cases,
}
use concurrentfw.AbaWrapper.{Content, content, same}
use concurrentfw.AbaWrapper.Dwcas.{next, others, rest, modify_loop, modify}

-- Memory holds `c` after some of the interferences, with `left` still to come.
pub data Seen
    : List (Content → Content) → Content → List (Content → Content) → Content → Type 0 where
  at_load : {env : List (Content → Content)} {memory : Content} → Seen env memory env memory
  after :
      {f : Content → Content} {fs left : List (Content → Content)} {memory c : Content}
      → Seen fs (f memory) left c
      → Seen (f ∷ fs) memory left c

-- What a call of `modify` comes to.
pub data Effect (w : ℕ) (modifier : ℕ → Option ℕ) (env : List (Content → Content))
    (memory : Content) : Option (Content × Bool) → Type 0 where
  stores :
      {c : Content} {left : List (Content → Content)} (new : ℕ)
      → Seen env memory left c
      → modifier c.value ≡ some new
      → same (others left c) c ≡ true
      → Effect w modifier env memory (some (content new ((c.counter + 1) % 2 ^ w), true))
  declines :
      {c : Content} {left : List (Content → Content)}
      → Seen env memory left c
      → modifier c.value ≡ none
      → Effect w modifier env memory (some (c, false))

module _ (w : ℕ) (modifier : ℕ → Option ℕ) where
  pub loop_hit :
      (fuel : ℕ) (env : List (Content → Content)) (cache memory : Content) (new : ℕ)
      → modifier cache.value ≡ some new
      → same (others env memory) cache ≡ true
      → modify_loop w modifier (suc fuel) env cache memory ≡ some (next w cache new, true)
  unfolding modify_loop
  loop_hit fuel env cache memory new e hit = ground arith

  pub loop_miss :
      (fuel : ℕ) (env : List (Content → Content)) (cache memory : Content) (new : ℕ)
      → modifier cache.value ≡ some new
      → same (others env memory) cache ≡ false
      → modify_loop w modifier (suc fuel) env cache memory
        ≡ modify_loop w modifier fuel (rest env) (others env memory) (others env memory)
  unfolding modify_loop
  loop_miss fuel env cache memory new e miss = ground arith

  pub loop_declines :
      (fuel : ℕ) (env : List (Content → Content)) (cache memory : Content)
      → modifier cache.value ≡ none
      → modify_loop w modifier (suc fuel) env cache memory ≡ some (memory, false)
  unfolding modify_loop
  loop_declines fuel env cache memory e = ground arith

  later_round :
      {f : Content → Content} {fs : List (Content → Content)} {memory : Content}
      {r : Option (Content × Bool)}
      → Effect w modifier fs (f memory) r
      → Effect w modifier (f ∷ fs) memory r
  later_round (stores new s e h) = stores new (after s) e h
  later_round (declines s e) = declines (after s) e

  same_refl : (c : Content) → same c c ≡ true
  same_refl c = ground arith

  loop-Effect :
      (fuel : ℕ) (env : List (Content → Content)) (memory : Content)
      → length env < fuel
      → Effect w modifier env memory (modify_loop w modifier fuel env memory memory)
  unfolding others rest next
  loop-Effect zero env memory h = absurd (omega arith)
  loop-Effect (suc fuel) [] memory h = elim (Option-cases (modifier memory.value)) [
    | inl e ↦ rw (loop_declines fuel [] memory memory e) (declines at_load e)
    | inr (new, e) ↦
        rw (loop_hit fuel [] memory memory new e (same_refl memory))
          (stores new at_load e (same_refl memory))
  ]
  loop-Effect (suc fuel) (f ∷ fs) memory h = elim (Option-cases (modifier memory.value)) [
    | inl e ↦ rw (loop_declines fuel (f ∷ fs) memory memory e) (declines at_load e)
    | inr (new, e) ↦ elim (Bool-cases (same (f memory) memory)) [
      | inl hit ↦ rw (loop_hit fuel (f ∷ fs) memory memory new e hit) (stores new at_load e hit)
      | inr miss ↦
          rw (loop_miss fuel (f ∷ fs) memory memory new e miss)
            (later_round (loop-Effect fuel fs (f memory) (omega arith)))
    ]
  ]

  -- `modify` ends, one round after the last interference of another thread at the latest. Either it
  -- succeeds: its one write replaces a content that memory held, that the lambda was given, and that
  -- memory holds again after the interference just before the write, by the lambda's result and
  -- the counter that is one higher, modulo 2 ^ w. Or the lambda declined a content that memory held, and nothing is written.
  pub dwcas_modify-Effect :
      (env : List (Content → Content)) (memory : Content)
      → Effect w modifier env memory (modify w modifier env memory)
  unfolding modify
  dwcas_modify-Effect env memory = loop-Effect (suc (length env)) env memory (omega arith)
