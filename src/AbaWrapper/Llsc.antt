-- ===== src/AbaWrapper/Llsc.antt =====
-- The LLSC branches of src/concurrentfw/aba_wrapper.hpp, over the exclusive load and store of
-- src/concurrentfw/atomic_asm_arm.hpp.
use concurrentfw.Prelude.{
  ℕ, zero, suc, ◌<◌, ◌≡◌, inl, inr, Bool, true, false, Option, none, some, List, [], ◌∷◌,
  if◌then◌else◌, length, arith, Option-cases, Bool-cases,
}
use concurrentfw.Arm.{
  Monitor, foreign_store, clear_monitor, atomic_exclusive_load_aquire,
  atomic_exclusive_store_release, atomic_exclusive_abort,
}

-- What happens between the exclusive load and the exclusive store of one round.
pub data Meanwhile : Type 0 where
  quiet : Meanwhile
  stored_by_other : ℕ → Meanwhile
  cleared : Meanwhile

unfoldable pub disturb : List Meanwhile → Monitor ℕ → Monitor ℕ
disturb [] m = m
disturb (quiet ∷ env) m = m
disturb (stored_by_other v ∷ env) m = foreign_store v m
disturb (cleared ∷ env) m = clear_monitor m

unfoldable pub following : List Meanwhile → List Meanwhile
following [] = []
following (e ∷ env) = env

-- the constructor: a plain store, which clears the monitors that watch the location
unfoldable pub construct : ℕ → Monitor ℕ
construct init = record { memory = init; reserved = false }

unfoldable pub get : Monitor ℕ → ℕ
get m = m.memory

unfoldable pub get_counter : Monitor ℕ → ℕ
get_counter m = 0

-- The loop of `modify`: each round loads anew. The list holds what happens in the rounds, and is
-- empty from where nothing does; `none` means that the fuel ran out.
unfoldable pub modify_loop :
    (ℕ → Option ℕ) → ℕ → List Meanwhile → Monitor ℕ → Option (Monitor ℕ × Bool)
unfolding disturb following atomic_exclusive_load_aquire atomic_exclusive_store_release
    atomic_exclusive_abort
modify_loop modifier zero env m = none
modify_loop modifier (suc fuel) env m =
    let (linked, cache) = atomic_exclusive_load_aquire m in
    elim (modifier cache) [
      | none ↦ some (atomic_exclusive_abort linked, false)
      | some desired ↦
          let (m', stored) = atomic_exclusive_store_release desired (disturb env linked) in
          let again = modify_loop modifier fuel (following env) m' in
          if stored then some (m', true) else again
    ]

unfoldable pub modify : (ℕ → Option ℕ) → List Meanwhile → Monitor ℕ → Option (Monitor ℕ × Bool)
unfolding modify_loop
modify modifier env m = modify_loop modifier (suc (length env)) env m

-- Memory held `u` at the start or from some store of another processor on, with `left` still to
-- come.
pub data Held : List Meanwhile → ℕ → List Meanwhile → ℕ → Type 0 where
  at_start : {env : List Meanwhile} {v : ℕ} → Held env v env v
  undisturbed :
      {env left : List Meanwhile} {v u : ℕ} → Held env v left u → Held (quiet ∷ env) v left u
  unmonitored :
      {env left : List Meanwhile} {v u : ℕ} → Held env v left u → Held (cleared ∷ env) v left u
  overwritten :
      {env left : List Meanwhile} {x v u : ℕ}
      → Held env x left u
      → Held (stored_by_other x ∷ env) v left u

abbrev pub is_quiet : List Meanwhile → Bool
is_quiet [] = true
is_quiet (quiet ∷ env) = true
is_quiet (stored_by_other v ∷ env) = false
is_quiet (cleared ∷ env) = false

-- What a call of `modify` comes to.
pub data Effect (modifier : ℕ → Option ℕ) (env : List Meanwhile) (v : ℕ)
    : Option (Monitor ℕ × Bool) → Type 0 where
  stores :
      {u : ℕ} {left : List Meanwhile} (new : ℕ)
      → Held env v left u
      → modifier u ≡ some new
      → is_quiet left ≡ true
      → Effect modifier env v (some (record { memory = new; reserved = false }, true))
  declines :
      {u : ℕ} {left : List Meanwhile}
      → Held env v left u
      → modifier u ≡ none
      → Effect modifier env v (some (record { memory = u; reserved = false }, false))

module _ (modifier : ℕ → Option ℕ) where
  prepend :
      (e : Meanwhile) {env : List Meanwhile} (v u : ℕ) {r : Option (Monitor ℕ × Bool)}
      → ((left : List Meanwhile) (x : ℕ) → Held env u left x → Held (e ∷ env) v left x)
      → Effect modifier env u r
      → Effect modifier (e ∷ env) v r
  prepend e v u up (stores {left} new h d q) = stores new (up left _ h) d q
  prepend e v u up (declines {left} h d) = declines (up left _ h) d

  pub round_declines :
      (fuel : ℕ) (env : List Meanwhile) (m : Monitor ℕ)
      → modifier m.memory ≡ none
      → modify_loop modifier (suc fuel) env m ≡ some (record m { reserved = false }, false)
  unfolding modify_loop
  round_declines fuel env m e = ground arith

  pub round_stores :
      (fuel : ℕ) (env : List Meanwhile) (m : Monitor ℕ) (new : ℕ)
      → modifier m.memory ≡ some new
      → is_quiet env ≡ true
      → modify_loop modifier (suc fuel) env m
        ≡ some (record { memory = new; reserved = false }, true)
  unfolding modify_loop
  round_stores fuel env m new e q = ground arith

  pub round_fails :
      (fuel : ℕ) (env : List Meanwhile) (m : Monitor ℕ) (new : ℕ)
      → modifier m.memory ≡ some new
      → is_quiet env ≡ false
      → modify_loop modifier (suc fuel) env m
        ≡ modify_loop modifier fuel (following env) (record {
          memory = (disturb env (record m { reserved = true })).memory;
          reserved = false;
        })
  unfolding modify_loop
  round_fails fuel env m new e q = ground arith

  -- One round, with the rest of the loop in hand.
  round-Effect :
      (fuel : ℕ) (env : List Meanwhile) (m : Monitor ℕ)
      → (is_quiet env ≡ false
          → Effect modifier env m.memory (
              modify_loop modifier fuel (following env) (record {
                memory = (disturb env (record m { reserved = true })).memory;
                reserved = false;
              })))
      → Effect modifier env m.memory (modify_loop modifier (suc fuel) env m)
  round-Effect fuel env m more = elim (Option-cases (modifier m.memory)) [
    | inl e ↦ rw (round_declines fuel env m e) (declines at_start e)
    | inr (new, e) ↦ elim (Bool-cases (is_quiet env)) [
      | inl q ↦ rw (round_stores fuel env m new e q) (stores new at_start e q)
      | inr q ↦ rw (round_fails fuel env m new e q) (more q)
    ]
  ]

  loop-Effect :
      (fuel : ℕ) (env : List Meanwhile) (m : Monitor ℕ)
      → length env < fuel
      → Effect modifier env m.memory (modify_loop modifier fuel env m)
  unfolding disturb following
  loop-Effect zero env m h = absurd (omega arith)
  loop-Effect (suc fuel) [] m h = round-Effect fuel [] m (λ q. absurd (cc))
  loop-Effect (suc fuel) (quiet ∷ env) m h = round-Effect fuel (quiet ∷ env) m (λ q. absurd (cc))
  loop-Effect (suc fuel) (cleared ∷ env) m h = round-Effect fuel (cleared ∷ env) m (λ q.
      prepend cleared m.memory m.memory (λ left x. unmonitored)
        (loop-Effect fuel env (record m { reserved = false }) (omega arith)))
  loop-Effect (suc fuel) (stored_by_other x ∷ env) m h =
      round-Effect fuel (stored_by_other x ∷ env) m (λ q.
        prepend (stored_by_other x) m.memory x (λ left y. overwritten)
          (loop-Effect fuel env (foreign_store x m) (omega arith)))

  -- `modify` ends, one round after the last disturbance at the latest. Either it succeeds, with the
  -- lambda's result for a value that memory held, in a round in which no other processor stored to
  -- the location, also not the same value; or the lambda declined a value that memory held, nothing
  -- is written, and the monitor is left clear.
  pub llsc_modify-Effect :
      (env : List Meanwhile) (m : Monitor ℕ) → Effect modifier env m.memory (modify modifier env m)
  unfolding modify
  llsc_modify-Effect env m = loop-Effect (suc (length env)) env m (omega arith)
