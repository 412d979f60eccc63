-- ===== src/Arm.antt =====
-- src/concurrentfw/atomic_asm_arm.hpp: exclusive loads and stores in inline assembly.
--
-- The exclusive monitor of a processor watches one location: an exclusive load sets it; `clrex`, an
-- exclusive store and a store to the location by another processor clear it. An exclusive store
-- takes place only if the monitor is set, and the processor may clear it for reasons of its own.
pub mod Pairs
pub mod Orders
use concurrentfw.Prelude.{
  ℕ, ◌+◌, ◌*◌, ◌/◌, ◌%◌, ◌^◌, Bool, true, false, not, bit_or, if◌then◌else◌, ◌==◌,
}

-- The watched location, of one word or of two, and the monitor.
pub record Monitor {ℓ} (A : Type ℓ) : Type ℓ where
  pub memory : A
  pub reserved : Bool

module _ {ℓ} {A : Type ℓ} where
  -- what the monitor sees of a store by another processor
  abbrev pub foreign_store : A → Monitor A → Monitor A
  foreign_store v m = record { memory = v; reserved = false }

  -- what it sees where the processor clears it for reasons of its own
  abbrev pub clear_monitor : Monitor A → Monitor A
  clear_monitor m = record m { reserved = false }

  -- `ldaxr` and `ldaxp` (`ldaex`, `ldrex` and their pairs)
  unfoldable pub load_exclusive : Monitor A → Monitor A × A
  load_exclusive m = (record m { reserved = true }, m.memory)

  -- `stlxr` and `stlxp` (`stlex`, `strex` and their pairs): the status is 0 if the store took place
  unfoldable pub store_exclusive : A → Monitor A → Monitor A × ℕ
  store_exclusive v m =
      if m.reserved
      then (record { memory = v; reserved = false }, 0)
      else (record m { reserved = false }, 1)

  -- `atomic_exclusive_abort`: `clrex`
  unfoldable pub atomic_exclusive_abort : Monitor A → Monitor A
  atomic_exclusive_abort m = record m { reserved = false }

  -- `atomic_exclusive_load_aquire`
  unfoldable pub atomic_exclusive_load_aquire : Monitor A → Monitor A × A
  unfolding load_exclusive
  atomic_exclusive_load_aquire m = load_exclusive m

  -- `atomic_exclusive_store_release`: `return !failed`
  unfoldable pub atomic_exclusive_store_release : A → Monitor A → Monitor A × Bool
  unfolding store_exclusive
  atomic_exclusive_store_release transfer m =
      let (m', failed) = store_exclusive transfer m in (m', failed == 0)
