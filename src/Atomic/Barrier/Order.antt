-- ===== src/Atomic/Barrier/Order.antt =====
-- What is left of the program order at a `compiler_barrier` (src/concurrentfw/helper.hpp).
use concurrentfw.Prelude.{
  ℕ, zero, suc, ◌≡◌, refl, sym, ◌∙◌, ap, ◌⊎◌, inl, inr, false, List, [], ◌∷◌, ◌++◌, update, arith,
}
use concurrentfw.Atomic.Barrier.{
  Instruction, load_from, store_to, modify_at, barrier, thread_fence, signal_fence,
  compiler_barrier, between_barriers, compiled, effect, perform, writes, take,
}
use concurrentfw.Atomic.Barrier.Divided.{Divided, compiled-Divided}

perform-unwritten :
    (a : ℕ) (is : List Instruction) (m : ℕ → ℕ) → writes a is ≡ false → perform is m a ≡ m a
unfolding perform
perform-unwritten a [] m none = refl
perform-unwritten a (store_to b v ∷ is) m none =
    perform-unwritten a is (update m b v) (ground arith) ∙ ground arith
perform-unwritten a (modify_at b f ∷ is) m none =
    perform-unwritten a is (update m b (f (m b))) (ground arith) ∙ ground arith
perform-unwritten a (load_from b ∷ is) m none = perform-unwritten a is m none
perform-unwritten a (barrier ∷ is) m none = perform-unwritten a is m none
perform-unwritten a (thread_fence o ∷ is) m none = perform-unwritten a is m none
perform-unwritten a (signal_fence o ∷ is) m none = perform-unwritten a is m none

perform-append :
    (is js : List Instruction) (m : ℕ → ℕ) → perform (is ++ js) m ≡ perform js (perform is m)
unfolding perform
perform-append [] js m = refl
perform-append (i ∷ is) js m = perform-append is js (effect i m)

writes-take : (a n : ℕ) (is : List Instruction) → writes a is ≡ false → writes a (take n is) ≡ false
writes-take a zero is none = refl
writes-take a (suc n) [] none = refl
writes-take a (suc n) (i ∷ is) none = ground (arith, writes-take a n is)

take-append :
    (n : ℕ) (is js : List Instruction)
    → (take n (is ++ js) ≡ take n is) ⊎ ((n' : ℕ) × (take n (is ++ js) ≡ is ++ take n' js))
take-append n [] js = inr (n, refl)
take-append zero (i ∷ is) js = inl refl
take-append (suc n) (i ∷ is) js = elim (take-append n is js) [
  | inl e ↦ inl (ap (λ l. i ∷ l) e)
  | inr (n', e) ↦ inr (n', ap (λ l. i ∷ l) e)
]

module _ (builtin : Instruction) (before after : List Instruction) where
  -- An interruption of any program of the form `Divided`.
  Divided-take :
      (program : List Instruction) (m : ℕ → ℕ) (cut a b : ℕ)
      → Divided before builtin after program
      → writes a after ≡ false
      → writes b before ≡ false
      → (perform (take cut program) m b ≡ m b)
        ⊎ (perform (take cut program) m a ≡ perform (before ++ builtin ∷ []) m a)
  unfolding perform
  Divided-take program m cut a b parts none_after none_before =
      rw parts.form
        (elim (take-append cut parts.ahead (barrier ∷ builtin ∷ barrier ∷ parts.behind)) [
          | inl within ↦ inl (
              rw within (
                perform-unwritten b (take cut parts.ahead) m
                  (writes-take b cut parts.ahead (parts.earlier.same_writes b ∙ none_before))))
          | inr (n, beyond) ↦ rw (beyond, perform-append parts.ahead) (past n)
        ])
    where
      start : perform parts.ahead m b ≡ m b
      start = perform-unwritten b parts.ahead m (parts.earlier.same_writes b ∙ none_before)

      past :
          (n : ℕ)
          → (perform (take n (barrier ∷ builtin ∷ barrier ∷ parts.behind)) (perform parts.ahead m) b
              ≡ m b)
            ⊎ (perform
                  (take n (barrier ∷ builtin ∷ barrier ∷ parts.behind))
                  (perform parts.ahead m)
                  a
                ≡ perform (before ++ builtin ∷ []) m a)
      past zero = inl start
      past (suc zero) = inl start
      past (suc (suc n)) = inr (
          perform-unwritten a (take n (barrier ∷ parts.behind)) _
            (writes-take a n (barrier ∷ parts.behind) (parts.later.same_writes a ∙ none_after))
          ∙ ap (λ (m : ℕ → ℕ). effect builtin m a) (parts.earlier.performs m)
          ∙ sym (ap (λ (m : ℕ → ℕ). m a) (perform-append before (builtin ∷ []) m)))

  -- Let `builtin` be any operation between two calls of `compiler_barrier`, as in `Atomic<T>` and the
  -- fences: a load, a store, an access that reads and modifies a word, or a fence. Let `a` be an
  -- address to which nothing after it writes, and `b` one to which nothing before it writes. In
  -- whatever order the compiler puts the program, and wherever a signal interrupts it, the handler
  -- finds `b` as it was at the start, or `a` with the last value that the program order gives it up to
  -- the builtin.
  pub handler_sees :
      (exchanges : List ℕ) (m : ℕ → ℕ) (cut a b : ℕ)
      → writes a after ≡ false
      → writes b before ≡ false
      → (perform (take cut (compiled exchanges (before ++ (between_barriers builtin ++ after)))) m b
          ≡ m b)
        ⊎ (perform
              (take cut (compiled exchanges (before ++ (between_barriers builtin ++ after))))
              m
              a
            ≡ perform (before ++ builtin ∷ []) m a)
  unfolding between_barriers compiler_barrier
  handler_sees exchanges m cut a b =
      Divided-take _ m cut a b (compiled-Divided exchanges builtin before after)
