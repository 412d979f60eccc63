-- ===== src/Atomic/Order.antt =====
-- src/concurrentfw/atomic.hpp: `AtomicMemoryOrder`, `memorder` and the concepts that say which
-- orders an operation may have.
use concurrentfw.Prelude.{
  ℕ, ◌≤◌, ◌≡◌, refl, ◌↔◌, ◌⊎◌, inl, inr, Bool, true, ◌&&◌, ◌||◌, arith, ◌==◌,
}

pub data MemoryOrder : Type 0 where
  relaxed consume acquire release acq_rel seq_cst : MemoryOrder

-- the compiler's constants `__ATOMIC_RELAXED` to `__ATOMIC_SEQ_CST`
pub memorder : MemoryOrder → ℕ
memorder relaxed = 0
memorder consume = 1
memorder acquire = 2
memorder release = 3
memorder acq_rel = 4
memorder seq_cst = 5

infix 50 ◌is◌
◌is◌ : MemoryOrder → MemoryOrder → Bool
unfolding memorder
a is b = memorder a == memorder b

pub acquire_consume : MemoryOrder → Bool
unfolding ◌is◌
acquire_consume o = o is acquire || o is consume

pub load_order : MemoryOrder → Bool
unfolding ◌is◌
load_order o = o is relaxed || o is seq_cst || o is acquire || o is consume

pub store_order : MemoryOrder → Bool
unfolding ◌is◌
store_order o = o is relaxed || o is seq_cst || o is release

pub compare_exchange_orders : MemoryOrder → MemoryOrder → Bool
unfolding ◌is◌
compare_exchange_orders success failure =
    failure is relaxed
    || failure is consume
      && (success is seq_cst
          || success is acquire
          || success is acq_rel
          || success is release
          || success is consume)
    || failure is acquire
      && (success is seq_cst || success is acquire || success is acq_rel || success is release)
    || failure is seq_cst && success is seq_cst

pub memorder_injective : (a b : MemoryOrder) → memorder a ≡ memorder b → a ≡ b
unfolding memorder
memorder_injective a b h = ground arith

-- The concept for the two orders of a compare-exchange admits exactly the pairs whose failure
-- order is one that a load may have and stands no later than the success order in the compiler's
-- numbering, which is the compiler's own condition.
pub compare_exchange_orders_iff :
    (success failure : MemoryOrder)
    → (compare_exchange_orders success failure ≡ true)
      ↔ ((load_order failure ≡ true) × (memorder failure ≤ memorder success))
unfolding compare_exchange_orders load_order
compare_exchange_orders_iff success failure = ground arith

pub acquire_consume_iff :
    (o : MemoryOrder) → (acquire_consume o ≡ true) ↔ ((o ≡ acquire) ⊎ (o ≡ consume))
unfolding acquire_consume ◌is◌ memorder
acquire_consume_iff relaxed = ground arith
acquire_consume_iff consume = (λ _. inr refl, λ _. refl)
acquire_consume_iff acquire = (λ _. inl refl, λ _. refl)
acquire_consume_iff release = ground arith
acquire_consume_iff acq_rel = ground arith
acquire_consume_iff seq_cst = ground arith
