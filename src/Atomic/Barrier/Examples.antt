-- ===== src/Atomic/Barrier/Examples.antt =====
-- A flag that a signal handler reads (src/concurrentfw/atomic.hpp).
use concurrentfw.Prelude.{ℕ, ◌≡◌, refl, ◌⊎◌, List, [], ◌∷◌, ◌++◌, ℕ_discrete}
use concurrentfw.Atomic.{exchange, compare_exchange_strong, fetch_add, test_and_set}
use concurrentfw.Atomic.Order.{relaxed}
use concurrentfw.Atomic.Barrier.{
  Instruction, store_to, modify_at, signal_fence, compiler_barrier, barred_load, barred_store,
  barred_exchange, barred_compare_exchange_strong, barred_fetch_add, barred_test_and_set,
  between_barriers, atomic_signal_fence, exchange_at, compiled, perform, take,
}
use concurrentfw.Atomic.Barrier.Order.{handler_sees}

-- The data at address 10 is written, and then the flag at address 11.
abbrev data_stored : List Instruction
data_stored = store_to 10 7 ∷ []

abbrev flag_stored : List Instruction
flag_stored = store_to 11 1 ∷ []

abbrev all_zero : ℕ → ℕ
all_zero _ = 0

-- An exchange at address 12, as `Atomic<T>::exchange` makes it.
abbrev exchanging : Instruction
exchanging = modify_at 12 (λ m. (exchange 1 m).0)

abbrev with_exchange : List Instruction
with_exchange = data_stored ++ (between_barriers exchanging ++ flag_stored)

handler_sees_example :
    (perform (take 4 (compiled (0 ∷ 3 ∷ []) with_exchange)) all_zero 11 ≡ 0)
    ⊎ (perform (take 4 (compiled (0 ∷ 3 ∷ []) with_exchange)) all_zero 10
        ≡ perform (data_stored ++ exchanging ∷ []) all_zero 10)
handler_sees_example =
    handler_sees exchanging data_stored flag_stored (0 ∷ 3 ∷ []) all_zero 4 10 11 refl refl

exchange_is_between : barred_exchange 1 12 ≡ between_barriers exchanging
unfolding barred_exchange
exchange_is_between = refl

-- A failed compare-exchange leaves the word, a successful one and an addition change it.
operations :
    (perform (barred_compare_exchange_strong 1 5 12) all_zero 12 ≡ 0)
    × (perform (barred_compare_exchange_strong 0 5 12) all_zero 12 ≡ 5)
    × (perform (barred_fetch_add 8 3 12) all_zero 12 ≡ 3)
    × (perform (barred_test_and_set 1 12) all_zero 12 ≡ 1)
    × (perform (barred_store 4 12 ++ barred_load 12) all_zero 12 ≡ 4)
unfolding perform barred_compare_exchange_strong barred_fetch_add barred_test_and_set barred_store
    barred_load between_barriers compiler_barrier compare_exchange_strong fetch_add test_and_set
    ℕ_discrete
operations = (refl, refl, refl, refl, refl)

fence_is_between : atomic_signal_fence relaxed ≡ between_barriers (signal_fence relaxed)
unfolding atomic_signal_fence
fence_is_between = refl

-- A relaxed fence of the compiler alone keeps neither side: the flag is set before the data.
abbrev unprotected : List Instruction
unprotected = data_stored ++ (signal_fence relaxed ∷ flag_stored)

unprotected_flag :
    (perform (take 1 (compiled (1 ∷ 0 ∷ []) unprotected)) all_zero 11 ≡ 1)
    × (perform (take 1 (compiled (1 ∷ 0 ∷ []) unprotected)) all_zero 10 ≡ 0)
unfolding compiled exchange_at perform ℕ_discrete
unprotected_flag = (refl, refl)
