-- ===== src/X86/Orders.antt =====
-- The memory orders of the double-word load and store in src/concurrentfw/atomic_asm_x86.hpp: the fast
-- code has plain accesses, which are relaxed, and fences of atomic.hpp beside them; the slow code has
-- `lock cmpxchg16b`, a full barrier.
mod Examples
use concurrentfw.Prelude.{ℕ, ◌≡◌, Bool, true, false, inl, inr, ◌||◌, arith}
use concurrentfw.Atomic.Order.{
  MemoryOrder, relaxed, release, seq_cst, acquire_consume, acquire_consume_iff,
}
use concurrentfw.Atomic.Views.{
  View, Includes, Standard, cpp17, cpp20, Thread, Message, carried, acquires, head, continued, load,
  store, modify, fence,
}

-- Whether X86_64_FAST_DW_LOAD or X86_64_FAST_DW_STORE is defined; the 32-bit words on x86-64 have the
-- fast code.
pub data Code : Type 0 where
  slow fast : Code

-- The template argument `MEMORDER` is that of the fence.
unfoldable pub dw_load_view : Code → MemoryOrder → Message → Thread → Thread
unfolding load fence
dw_load_view slow o message t = load seq_cst message t
dw_load_view fast o message t = fence o (load relaxed message t)

-- Thread `i` stores.
unfoldable pub dw_store_view : Standard → Code → ℕ → Thread → Message → Thread × Message
unfolding fence store modify
dw_store_view std slow i t message = modify i seq_cst t message
dw_store_view std fast i t message =
    let t' = fence release t in (t', store std i relaxed t' message)

store_publishes :
    (std : Standard) (c : Code) (i : ℕ) (t : Thread) (message : Message)
    → Includes (carried (dw_store_view std c i t message).1) t.current
unfolding dw_store_view fence store modify head load carried
store_publishes std slow i t message e h = ground (arith, h)
store_publishes std fast i t message e h = ground (arith, h)

load_learns :
    (c : Code) (o : MemoryOrder) (message : Message) (t : Thread)
    → acquire_consume o ≡ true
    → Includes (dw_load_view c o message t).current (carried message)
unfolding dw_load_view fence load
load_learns slow o message t ok e h = ground (arith, h)
load_learns fast o message t ok e h = elim ((acquire_consume_iff o).0 ok) [
  | inl is_acquire ↦ rw is_acquire (ground (arith, h))
  | inr is_consume ↦ rw is_consume (ground (arith, h))
]

-- Whichever code the store and the load have, a thread that loads a double word right after it was
-- stored knows all that happened before the store, for each order that the load admits.
pub dw_handed_over :
    (std : Standard) (stores loads : Code) (i : ℕ) (o : MemoryOrder) (t t' : Thread)
    (message : Message)
    → acquire_consume o ≡ true
    → Includes (dw_load_view loads o (dw_store_view std stores i t message).1 t').current t.current
dw_handed_over std stores loads i o t t' message ok e h =
    load_learns loads o _ t' ok e (store_publishes std stores i t message e h)
