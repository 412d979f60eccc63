-- ===== src/Arm/Orders/Examples.antt =====
-- The theorems on the memory orders of exclusive loads and stores at concrete processors.
use concurrentfw.Prelude.{ℕ, ◌≡◌, refl, true, [], ◌∷◌, ◌==◌, arith}
use concurrentfw.Atomic.Views.{Includes, nothing, fresh}
use concurrentfw.Arm.Orders.{
  armv7, armv8, Processor, atomic_exclusive_store_release, atomic_exclusive_store_pair_release,
}
use concurrentfw.Arm.Orders.Handover.{
  Exchange, load_after, load_pair_after, last_value, handed_over, pair_handed_over,
}

-- A processor that has loaded the word 5 exclusively and knows the write 3.
abbrev writer : Processor ℕ
writer = record {
  monitor = record { memory = 5; reserved = true };
  message = [];
  thread = record { current = λ e. e == 3; acquirable = nothing; fenced = nothing };
}

abbrev another : Exchange ℕ
another = record { processor = 1; thread = fresh; value = 8 }

handed_over_example :
    ((atomic_exclusive_store_release armv7 0 7 writer).1 ≡ true)
    × ((load_after armv7 0 7 writer (another ∷ []) fresh).1 ≡ last_value 7 (another ∷ []))
    × Includes
        (load_after armv7 0 7 writer (another ∷ []) fresh).0.thread.current
        writer.thread.current
handed_over_example = handed_over armv7 0 7 writer refl (another ∷ []) fresh

pair_handed_over_example :
    ((atomic_exclusive_store_pair_release armv8 0 (0xDEADBEEF, 0x1CEDCAFE) writer).1 ≡ true)
    × ((load_pair_after armv8 0 (0xDEADBEEF, 0x1CEDCAFE) writer fresh).1 ≡ (0xDEADBEEF, 0x1CEDCAFE))
    × Includes
        (load_pair_after armv8 0 (0xDEADBEEF, 0x1CEDCAFE) writer fresh).0.thread.current
        writer.thread.current
pair_handed_over_example =
    pair_handed_over armv8 0 0xDEADBEEF 0x1CEDCAFE writer (omega arith) (omega arith) refl fresh
