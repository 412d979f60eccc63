-- ===== src/Stack/Llsc/System.antt =====
-- Any number of threads over one `Stack` (src/stack.cpp) on a platform with LLSC, interleaved in any
-- order, and the blocks that they own outside it.
use concurrentfw.Prelude.{ℕ, ◌≡◌, ◌≢◌, false, Option, some, List, [], ◌∷◌, ◌++◌, update}
use concurrentfw.AbaWrapper.Llsc.{construct}
use concurrentfw.Stack.{Block, null, Event, silent}
use concurrentfw.Stack.System.{settle}
use concurrentfw.Stack.Llsc.{Memory, Pc, idle, pop_start, rejected, push_entry, run}

-- `owner` is the caller's contract, as on DWCAS.
pub record System : Type 0 where
  pub memory : Memory
  pub pc : ℕ → Pc
  pub owner : Block → Option ℕ

-- A new stack; any words in memory, and any owners of the blocks.
unfoldable pub init : (Block → ℕ) → (Block → Option ℕ) → System
unfolding construct
init link owner = record {
  memory = record {
    link = link;
    stack = (construct null).memory;
    reserved = λ _. (construct null).reserved;
  };
  pc = λ _. idle;
  owner = owner;
}

pub data Step (s : System) : Event → System → Type 0 where
  call_push :
      (i : ℕ) (b : Block)
      → s.pc i ≡ idle
      → (b ≢ null → s.owner b ≡ some i)
      → Step s silent (record s { pc = update s.pc i (push_entry b) })
  call_pop : (i : ℕ) → s.pc i ≡ idle → Step s silent (record s { pc = update s.pc i pop_start })
  recover : (i : ℕ) → s.pc i ≡ rejected → Step s silent (record s { pc = update s.pc i idle })
  use_block :
      (i : ℕ) (b : Block) (word : ℕ)
      → s.pc i ≡ idle
      → s.owner b ≡ some i
      → Step s silent (record s { memory = record s.memory { link = update s.memory.link b word } })
  hand_over :
      (i j : ℕ) (b : Block)
      → s.pc i ≡ idle
      → s.owner b ≡ some i
      → Step s silent (record s { owner = update s.owner b (some j) })
  clear :
      (i : ℕ)
      → Step s silent
          (record s { memory = record s.memory { reserved = update s.memory.reserved i false } })
  access :
      (i : ℕ)
      → Step s (run i s.memory (s.pc i)).2 (record {
        memory = (run i s.memory (s.pc i)).0;
        pc = update s.pc i (run i s.memory (s.pc i)).1;
        owner = settle i (run i s.memory (s.pc i)).2 s.owner;
      })

-- The runs from `s`, with their events in order.
pub data Run (s : System) : List Event → System → Type 0 where
  start : Run s [] s
  later :
      {es : List Event} {t u : System} {e : Event}
      → Run s es t
      → Step t e u
      → Run s (es ++ e ∷ []) u
