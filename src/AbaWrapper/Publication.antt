-- ===== src/AbaWrapper/Publication.antt =====
-- The memory orders of src/concurrentfw/aba_wrapper.hpp on platforms with DWCAS: what the wrapper passes
-- on of other memory from thread to thread.
use concurrentfw.Prelude.{ℕ, [], ◌==◌, ◌||◌, update, arith}
use concurrentfw.Atomic.Order.{MemoryOrder, acquire, seq_cst}
use concurrentfw.Atomic.Views.{
  View, nothing, Includes, Thread, fresh, Message, carried, load, modify, head,
}

-- The views of the threads, what the wrapper carries, and what the thread that put a word
-- into the wrapper knew when it last did.
pub record Views : Type 0 where
  pub thread : ℕ → Thread
  pub message : Message
  pub published : ℕ → View

unfoldable pub at_start : Views
at_start = record { thread = λ _. fresh; message = []; published = λ _. nothing }

-- `MEMORDER` of `atomic_dw_load` in `modify`, and the order of `lock cmpxchg16b`, which is a full
-- barrier.
abbrev pub dw_load_order : MemoryOrder
dw_load_order = acquire

abbrev pub dw_cas_order : MemoryOrder
dw_cas_order = seq_cst

abbrev pub reads : MemoryOrder → ℕ → Views → Views
reads o i v = record v { thread = update v.thread i (load o v.message (v.thread i)) }

abbrev pub swaps : ℕ → Views → Views
swaps i v =
    let (t, message) = modify i dw_cas_order (v.thread i) v.message in
    record v { thread = update v.thread i t; message = message }

abbrev pub publishes : ℕ → ℕ → Views → Views
publishes i b v = record v { published = update v.published b (v.thread i).current }

-- Thread `i` writes to other memory, or learns of a write.
abbrev pub learns : ℕ → ℕ → Views → Views
learns i e v = record v {
  thread =
      update v.thread i (record (v.thread i) { current = λ x. (x == e) || (v.thread i).current x });
}

-- The wrapper carries what was published with each word.
abbrev pub Carries : Views → Type 0
Carries v = (b : ℕ) → Includes (carried v.message) (v.published b)

-- A thread that acquires knows what the wrapper carries.
pub acquired :
    (i : ℕ) (thread : ℕ → Thread) (message : Message)
    → Includes (update thread i (load acquire message (thread i)) i).current (carried message)
unfolding load
acquired i thread message e h = ground (arith, h)

pub swaps-Carries : (i : ℕ) (v : Views) → Carries v → Carries (swaps i v)
unfolding carried modify head load
swaps-Carries i v c b e h = ground (arith, c b e h)

pub publishing-Carries :
    (i : ℕ) (b : ℕ) (v : Views) → Carries v → Carries (swaps i (publishes i b v))
unfolding carried modify head load
publishing-Carries i b v c d e h = ground (arith, c d e)
