-- ===== src/Atomic/Barrier/Divided.antt =====
-- The two sides of a builtin between two calls of `compiler_barrier` (src/concurrentfw/helper.hpp),
-- under the exchanges of a compiler.
use concurrentfw.Prelude.{
  ℕ, zero, suc, ◌≡◌, refl, sym, ◌∙◌, ap, ◌⊎◌, inl, inr, true, false, List, [], ◌∷◌, ◌++◌, fun_ext,
  arith, Bool-cases, ◌||◌,
}
use concurrentfw.Atomic.Barrier.{
  Instruction, load_from, store_to, modify_at, barrier, thread_fence, signal_fence, independent,
  exchange_at, compiled, effect, perform, stores_to, writes,
}

effect-effect :
    (i j : Instruction) (m : ℕ → ℕ)
    → independent i j ≡ true
    → effect j (effect i m) ≡ effect i (effect j m)
effect-effect (store_to a v) (store_to b w) m free = fun_ext (λ c. ground arith)
effect-effect (store_to a v) (modify_at b g) m free = fun_ext (λ c. ground arith)
effect-effect (modify_at a f) (store_to b w) m free = fun_ext (λ c. ground arith)
effect-effect (modify_at a f) (modify_at b g) m free = fun_ext (λ c. ground arith)
effect-effect (store_to a v) (load_from b) m free = refl
effect-effect (store_to a v) (thread_fence o) m free = refl
effect-effect (store_to a v) (signal_fence o) m free = refl
effect-effect (store_to a v) barrier m free = refl
effect-effect (modify_at a f) (load_from b) m free = refl
effect-effect (modify_at a f) (thread_fence o) m free = refl
effect-effect (modify_at a f) (signal_fence o) m free = refl
effect-effect (modify_at a f) barrier m free = refl
effect-effect (load_from a) j m free = refl
effect-effect barrier j m free = refl
effect-effect (thread_fence o) j m free = refl
effect-effect (signal_fence o) j m free = refl

-- The same accesses in an order that leaves the same memory.
pub record Reordered (is js : List Instruction) : Type 0 where
  pub performs : (m : ℕ → ℕ) → perform js m ≡ perform is m
  pub same_writes : (a : ℕ) → writes a js ≡ writes a is

same-Reordered : (is : List Instruction) → Reordered is is
same-Reordered is = record { performs = λ m. refl; same_writes = λ a. refl }

exchange_at-Reordered : (n : ℕ) (is : List Instruction) → Reordered is (exchange_at n is)
unfolding exchange_at perform
exchange_at-Reordered zero [] = same-Reordered []
exchange_at-Reordered zero (i ∷ []) = same-Reordered (i ∷ [])
exchange_at-Reordered zero (i ∷ j ∷ is) = elim (Bool-cases (independent i j)) [
  | inl free ↦ rw free (record {
    performs = λ m. ap (perform is) (sym (effect-effect i j m free));
    same_writes = λ a. ground arith;
  })
  | inr bound ↦ rw bound (same-Reordered (i ∷ j ∷ is))
]
exchange_at-Reordered (suc n) [] = same-Reordered []
exchange_at-Reordered (suc n) (i ∷ is) =
    let rest = exchange_at-Reordered n is in
    record {
      performs = λ m. rest.performs (effect i m);
      same_writes = λ a. ap (λ b. stores_to i a || b) (rest.same_writes a);
    }

exchange_at-nil : (n : ℕ) → exchange_at n [] ≡ []
unfolding exchange_at
exchange_at-nil zero = refl
exchange_at-nil (suc n) = refl

bound_before_barrier : (i : Instruction) → independent i barrier ≡ false
bound_before_barrier i = ground arith

-- An exchange takes place on one side of a barrier.
exchange_at-barrier :
    (n : ℕ) (is js : List Instruction)
    → (exchange_at n (is ++ barrier ∷ js) ≡ exchange_at n is ++ barrier ∷ js)
      ⊎ ((n' : ℕ) × (exchange_at n (is ++ barrier ∷ js) ≡ is ++ barrier ∷ exchange_at n' js))
unfolding exchange_at
exchange_at-barrier zero [] [] = inl refl
exchange_at-barrier zero [] (j ∷ js) = inl refl
exchange_at-barrier zero (i ∷ []) js = inl (rw (bound_before_barrier i) refl)
exchange_at-barrier zero (i ∷ i' ∷ is) js = elim (Bool-cases (independent i i')) [
  | inl free ↦ inl (rw free refl)
  | inr bound ↦ inl (rw bound refl)
]
exchange_at-barrier (suc n) [] js = inr (n, refl)
exchange_at-barrier (suc n) (i ∷ is) js = elim (exchange_at-barrier n is js) [
  | inl e ↦ inl (ap (λ l. i ∷ l) e)
  | inr (n', e) ↦ inr (n', ap (λ l. i ∷ l) e)
]

exchange_at-single : (n : ℕ) (i : Instruction) → exchange_at n (i ∷ []) ≡ i ∷ []
unfolding exchange_at
exchange_at-single zero i = refl
exchange_at-single (suc n) i = ap (λ l. i ∷ l) (exchange_at-nil n)

-- The program is `before`, a builtin between barriers, and `after`, but for the order on each side.
pub record Divided (before : List Instruction) (builtin : Instruction)
    (after program : List Instruction) : Type 0 where
  pub ahead : List Instruction
  pub behind : List Instruction
  pub earlier : Reordered before ahead
  pub later : Reordered after behind
  pub form : program ≡ ahead ++ barrier ∷ builtin ∷ barrier ∷ behind

trans-Reordered :
    {is js ks : List Instruction} → Reordered is js → Reordered js ks → Reordered is ks
trans-Reordered r q = record {
  performs = λ m. q.performs m ∙ r.performs m;
  same_writes = λ a. q.same_writes a ∙ r.same_writes a;
}

exchange_at-Divided :
    (n : ℕ) (builtin : Instruction) (before after : List Instruction)
    → Divided before builtin after (exchange_at n (before ++ barrier ∷ builtin ∷ barrier ∷ after))
exchange_at-Divided n builtin before after =
    elim (exchange_at-barrier n before (builtin ∷ barrier ∷ after)) [
      | inl e ↦ record {
        ahead = exchange_at n before;
        behind = after;
        earlier = exchange_at-Reordered n before;
        later = same-Reordered after;
        form = e;
      }
      | inr (n', e) ↦ elim (exchange_at-barrier n' (builtin ∷ []) after) [
        | inl e' ↦ record {
          ahead = before;
          behind = after;
          earlier = same-Reordered before;
          later = same-Reordered after;
          form =
              e
              ∙ ap (λ l. before ++ barrier ∷ l)
                  (e' ∙ ap (λ l. l ++ barrier ∷ after) (exchange_at-single n' builtin));
        }
        | inr (n'', e') ↦ record {
          ahead = before;
          behind = exchange_at n'' after;
          earlier = same-Reordered before;
          later = exchange_at-Reordered n'' after;
          form = e ∙ ap (λ l. before ++ barrier ∷ l) e';
        }
      ]
    ]

pub compiled-Divided :
    (ns : List ℕ) (builtin : Instruction) (before after : List Instruction)
    → Divided before builtin after (compiled ns (before ++ barrier ∷ builtin ∷ barrier ∷ after))
unfolding compiled
compiled-Divided [] builtin before after = record {
  ahead = before;
  behind = after;
  earlier = same-Reordered before;
  later = same-Reordered after;
  form = refl;
}
compiled-Divided (n ∷ ns) builtin before after =
    let once = exchange_at-Divided n builtin before after in
    let rest = compiled-Divided ns builtin once.ahead once.behind in
    record {
      ahead = rest.ahead;
      behind = rest.behind;
      earlier = trans-Reordered once.earlier rest.earlier;
      later = trans-Reordered once.later rest.later;
      form = ap (compiled ns) once.form ∙ rest.form;
    }
