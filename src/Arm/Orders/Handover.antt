-- ===== src/Arm/Orders/Handover.antt =====
-- What a processor knows after an exclusive load (src/concurrentfw/atomic_asm_arm.hpp).
use concurrentfw.Prelude.{ℕ, ◌<◌, ◌^◌, ◌≡◌, refl, ap, ◌∙◌, true, false, List, [], ◌∷◌, arith}
use concurrentfw.Atomic.Views.{View, Includes, Thread, carried, load, head, fence}
use concurrentfw.Arm.{load_exclusive, store_exclusive}
use concurrentfw.Arm.Pairs.{pack, unpack, unpack-pack}
use concurrentfw.Arm.Orders.{
  Version, armv7, armv8, Processor, ldaex, stlex, ldrex, strex, dmb, atomic_exclusive_load_aquire,
  atomic_exclusive_store_release, atomic_exclusive_load_pair_aquire,
  atomic_exclusive_store_pair_release,
}

-- Another processor replaces the value of the word.
pub record Exchange {ℓ} (A : Type ℓ) : Type ℓ where
  pub processor : ℕ
  pub thread : Thread
  pub value : A

module _ {ℓ} {A : Type ℓ} where
  -- The word as a processor finds it that has not watched it.
  abbrev pub seen_by : Thread → Processor A → Processor A
  seen_by t p = record p {
    monitor = record { memory = p.monitor.memory; reserved = false };
    thread = t;
  }

  -- An exclusive load and an exclusive store with nothing in between.
  abbrev pub exchange : Version → Exchange A → Processor A → Processor A
  exchange version x p =
      (atomic_exclusive_store_release version x.processor x.value
        (atomic_exclusive_load_aquire version (seen_by x.thread p)).0).0

  unfoldable pub exchange_all : Version → List (Exchange A) → Processor A → Processor A
  exchange_all version [] p = p
  exchange_all version (x ∷ xs) p = exchange_all version xs (exchange version x p)

  unfoldable pub last_value : A → List (Exchange A) → A
  last_value a [] = a
  last_value a (x ∷ xs) = last_value x.value xs

  exchange_keeps :
      (version : Version) (x : Exchange A) (p : Processor A)
      → ((exchange version x p).monitor.memory ≡ x.value)
        × Includes (carried (exchange version x p).message) (carried p.message)
  unfolding atomic_exclusive_load_aquire atomic_exclusive_store_release ldaex stlex ldrex strex dmb
      load_exclusive store_exclusive carried
  exchange_keeps armv7 x p = (refl, λ e h. ground (arith, h))
  exchange_keeps armv8 x p = (refl, λ e h. ground (arith, h))

  exchange_all_keeps :
      (version : Version) (xs : List (Exchange A)) (p : Processor A) (value : A) (known : View)
      → p.monitor.memory ≡ value
      → Includes (carried p.message) known
      → ((exchange_all version xs p).monitor.memory ≡ last_value value xs)
        × Includes (carried (exchange_all version xs p).message) known
  unfolding exchange_all last_value
  exchange_all_keeps version [] p value known m c = (m, c)
  exchange_all_keeps version (x ∷ xs) p value known m c =
      let (m', c') = exchange_keeps version x p in
      exchange_all_keeps version xs (exchange version x p) x.value known m' (λ e h. c' e (c e h))

  -- A store that takes place passes on what its processor knows.
  pub store_passes_on :
      (version : Version) (i : ℕ) (value : A) (p : Processor A)
      → p.monitor.reserved ≡ true
      → ((atomic_exclusive_store_release version i value p).1 ≡ true)
        × ((atomic_exclusive_store_release version i value p).0.monitor.memory ≡ value)
        × Includes
            (carried (atomic_exclusive_store_release version i value p).0.message)
            p.thread.current
  unfolding atomic_exclusive_store_release stlex strex dmb store_exclusive carried head fence
  store_passes_on armv7 i value p r =
      (ground (arith, r), ground (arith, r), λ e h. ground (arith, r, h))
  store_passes_on armv8 i value p r =
      (ground (arith, r), ground (arith, r), λ e h. ground (arith, r, h))

  pub store_knows :
      (version : Version) (i : ℕ) (value : A) (p : Processor A)
      → Includes
          (atomic_exclusive_store_release version i value p).0.thread.current
          p.thread.current
  unfolding atomic_exclusive_store_release stlex strex dmb store_exclusive fence
  store_knows armv7 i value p e h = ground (arith, h)
  store_knows armv8 i value p e h = ground (arith, h)

  pub store_refused :
      (version : Version) (i : ℕ) (value : A) (p : Processor A)
      → p.monitor.reserved ≡ false
      → (atomic_exclusive_store_release version i value p).1 ≡ false
  unfolding atomic_exclusive_store_release stlex strex dmb store_exclusive
  store_refused armv7 i value p r = ground (arith, r)
  store_refused armv8 i value p r = ground (arith, r)

  pub load_acquires :
      (version : Version) (p : Processor A)
      → ((atomic_exclusive_load_aquire version p).1 ≡ p.monitor.memory)
        × Includes (atomic_exclusive_load_aquire version p).0.thread.current (carried p.message)
  unfolding atomic_exclusive_load_aquire ldaex ldrex dmb load_exclusive load fence
  load_acquires armv7 p = (refl, λ e h. ground (arith, h))
  load_acquires armv8 p = (refl, λ e h. ground (arith, h))

  -- A load after processor `i` has stored and others have replaced the value.
  abbrev pub load_after :
      Version → ℕ → A → Processor A → List (Exchange A) → Thread → Processor A × A
  load_after version i value p others t =
      let (p', done) = atomic_exclusive_store_release version i value p in
      atomic_exclusive_load_aquire version (seen_by t (exchange_all version others p'))

  pub load_keeps :
      (version : Version) (p : Processor A)
      → (atomic_exclusive_load_aquire version p).0.message ≡ p.message
  unfolding atomic_exclusive_load_aquire ldaex ldrex dmb load_exclusive
  load_keeps armv7 p = refl
  load_keeps armv8 p = refl

  pub store_keeps :
      (version : Version) (i : ℕ) (value : A) (p : Processor A)
      → Includes
          (carried (atomic_exclusive_store_release version i value p).0.message)
          (carried p.message)
  unfolding atomic_exclusive_store_release stlex strex dmb store_exclusive carried
  store_keeps armv7 i value p e h = ground (arith, h)
  store_keeps armv8 i value p e h = ground (arith, h)

  -- On ARMv7 and ARMv8: an exclusive store with the monitor set takes place, and a processor that
  -- loads the word afterwards, other processors having replaced its value any number of times, finds
  -- the last value and knows all that happened before the store.
  pub handed_over :
      (version : Version) (i : ℕ) (value : A) (p : Processor A)
      → p.monitor.reserved ≡ true
      → (others : List (Exchange A)) (t : Thread)
      → ((atomic_exclusive_store_release version i value p).1 ≡ true)
        × ((load_after version i value p others t).1 ≡ last_value value others)
        × Includes (load_after version i value p others t).0.thread.current p.thread.current
  handed_over version i value p r others t =
      let p' = (atomic_exclusive_store_release version i value p).0 in
      let (done, memory_is, passed) = store_passes_on version i value p r in
      let (m, c) = exchange_all_keeps version others p' value p.thread.current memory_is passed in
      let (v, known) = load_acquires version (seen_by t (exchange_all version others p')) in
      (done, v ∙ m, λ e h. known e (c e h))

-- The pairs of 32-bit ARM are words of 64 bits.
load_pair_as_word :
    (version : Version) (p : Processor ℕ)
    → atomic_exclusive_load_pair_aquire version p ≡ (
      (atomic_exclusive_load_aquire version p).0,
      unpack (atomic_exclusive_load_aquire version p).1,
    )
unfolding atomic_exclusive_load_pair_aquire atomic_exclusive_load_aquire
load_pair_as_word armv7 p = refl
load_pair_as_word armv8 p = refl

store_pair_as_word :
    (version : Version) (i : ℕ) (transfer : ℕ × ℕ) (p : Processor ℕ)
    → atomic_exclusive_store_pair_release version i transfer p
      ≡ atomic_exclusive_store_release version i (pack transfer) p
unfolding atomic_exclusive_store_pair_release atomic_exclusive_store_release
store_pair_as_word armv7 i transfer p = refl
store_pair_as_word armv8 i transfer p = refl

-- A load of the pair right after processor `i` has stored one.
abbrev pub load_pair_after : Version → ℕ → ℕ × ℕ → Processor ℕ → Thread → Processor ℕ × (ℕ × ℕ)
load_pair_after version i transfer p t =
    let (p', done) = atomic_exclusive_store_pair_release version i transfer p in
    atomic_exclusive_load_pair_aquire version (seen_by t p')

-- On 32-bit ARM: an exclusive store of a pair of 32-bit words with the monitor set takes place, and
-- a processor that loads the pair next finds its two words and knows all that happened before the
-- store.
pub pair_handed_over :
    (version : Version) (i a b : ℕ) (p : Processor ℕ)
    → a < 2 ^ 32
    → b < 2 ^ 32
    → p.monitor.reserved ≡ true
    → (t : Thread)
    → ((atomic_exclusive_store_pair_release version i (a, b) p).1 ≡ true)
      × ((load_pair_after version i (a, b) p t).1 ≡ (a, b))
      × Includes (load_pair_after version i (a, b) p t).0.thread.current p.thread.current
unfolding exchange_all last_value
pair_handed_over version i a b p ha hb r t =
    let (done, value_is, known) = handed_over version i (pack (a, b)) p r [] t in
    rw (store_pair_as_word version i (a, b) p, load_pair_as_word version _)
      (done, ap unpack value_is ∙ (unpack-pack a b ha hb).0, known)
