-- ===== src/Arm/Orders.antt =====
-- The memory orders in src/concurrentfw/atomic_asm_arm.hpp: `ldaex` and `stlex` of ARMv8 (`ldaxr` and
-- `stlxr` on 64-bit ARM, and their pairs), which acquire and release by themselves, and the code for
-- ARMv7, which puts `dmb` behind the load and ahead of the store.
--
-- An exclusive store that takes place continues the release sequences of the word, as it ends a
-- read-modify-write operation.
pub mod Handover
mod Examples
use concurrentfw.Prelude.{ℕ, Bool, ◌∷◌, ◌==◌, if◌then◌else◌}
use concurrentfw.Atomic.Order.{MemoryOrder, relaxed, acquire, release, seq_cst}
use concurrentfw.Atomic.Views.{Thread, Message, load, head, fence}
use concurrentfw.Arm.{Monitor, load_exclusive, store_exclusive}
use concurrentfw.Arm.Pairs.{pack, unpack}

pub data Version : Type 0 where
  armv7 armv8 : Version

-- A word in memory, with what it carries, and a processor that accesses it.
pub record Processor {ℓ} (A : Type ℓ) : Type ℓ where
  pub monitor : Monitor A
  pub message : Message
  pub thread : Thread

module _ {ℓ} {A : Type ℓ} where
  abbrev pub loaded : MemoryOrder → Processor A → Processor A × A
  loaded o p =
      let (m, value) = load_exclusive p.monitor in
      (record p { monitor = m; thread = load o p.message p.thread }, value)

  abbrev pub stored : ℕ → MemoryOrder → A → Processor A → Processor A × ℕ
  stored i o value p =
      let (m, failed) = store_exclusive value p.monitor in
      let message = if failed == 0 then head i o p.thread ∷ p.message else p.message in
      (record p { monitor = m; message = message }, failed)

  -- `ldaex` and `stlex` of ARMv8
  unfoldable pub ldaex : Processor A → Processor A × A
  unfolding load_exclusive
  ldaex p = loaded acquire p

  unfoldable pub stlex : ℕ → A → Processor A → Processor A × ℕ
  unfolding store_exclusive
  stlex i value p = stored i release value p

  -- `ldrex`, `strex` and `dmb` of ARMv7
  unfoldable pub ldrex : Processor A → Processor A × A
  unfolding load_exclusive
  ldrex p = loaded relaxed p

  unfoldable pub strex : ℕ → A → Processor A → Processor A × ℕ
  unfolding store_exclusive
  strex i value p = stored i relaxed value p

  unfoldable pub dmb : Processor A → Processor A
  dmb p = record p { thread = fence seq_cst p.thread }

  unfoldable pub atomic_exclusive_load_aquire : Version → Processor A → Processor A × A
  unfolding ldaex ldrex dmb
  atomic_exclusive_load_aquire armv8 p = ldaex p
  atomic_exclusive_load_aquire armv7 p = let (p', transfer) = ldrex p in (dmb p', transfer)

  -- processor `i`
  unfoldable pub atomic_exclusive_store_release : Version → ℕ → A → Processor A → Processor A × Bool
  unfolding stlex strex dmb
  atomic_exclusive_store_release armv8 i transfer p =
      let (p', failed) = stlex i transfer p in (p', failed == 0)
  atomic_exclusive_store_release armv7 i transfer p =
      let (p', failed) = strex i transfer (dmb p) in (p', failed == 0)

-- The same for two words of 32 bits: `ldaexd`, `stlexd`, `ldrexd` and `strexd` access one word of 64.
unfoldable pub atomic_exclusive_load_pair_aquire : Version → Processor ℕ → Processor ℕ × (ℕ × ℕ)
unfolding ldaex ldrex dmb unpack
atomic_exclusive_load_pair_aquire armv8 p = let (p', pair) = ldaex p in (p', unpack pair)
atomic_exclusive_load_pair_aquire armv7 p = let (p', pair) = ldrex p in (dmb p', unpack pair)

unfoldable pub atomic_exclusive_store_pair_release :
    Version → ℕ → ℕ × ℕ → Processor ℕ → Processor ℕ × Bool
unfolding stlex strex dmb pack
atomic_exclusive_store_pair_release armv8 i transfer p =
    let (p', failed) = stlex i (pack transfer) p in (p', failed == 0)
atomic_exclusive_store_pair_release armv7 i transfer p =
    let (p', failed) = strex i (pack transfer) (dmb p) in (p', failed == 0)
