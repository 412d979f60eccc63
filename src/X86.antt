-- ===== src/X86.antt =====
-- src/concurrentfw/atomic_asm_x86.hpp: the double-word load, store and compare-and-swap in inline
-- assembly, each instruction a function of the registers that it names.
--
-- A 64-bit double word is a pair of words, in memory order. `LOCK CMPXCHG16B` (`8B` on i686) is
-- one step; between two instructions other threads may change memory.
pub mod Wide
pub mod Narrow
pub mod Orders
mod Examples
use concurrentfw.Prelude.{
  ℕ, zero, suc, ◌+◌, ◌*◌, ◌/◌, ◌%◌, ◌^◌, Bool, true, false, Option, none, some, List, [], ◌∷◌,
  bit_or, if◌then◌else◌, length,
}
use concurrentfw.AbaWrapper.{Content, content, same}
use concurrentfw.AbaWrapper.Dwcas.{others, rest}

-- rax and rdx, rbx and rcx
pub record Registers : Type 0 where
  pub ax : ℕ
  pub dx : ℕ
  pub bx : ℕ
  pub cx : ℕ

-- `lock cmpxchg16b (ptr)`: memory, registers and the zero flag afterwards
unfoldable pub cmpxchg : Registers → Content → Content × Registers × Bool
cmpxchg r memory =
    if same memory (content r.ax r.dx)
    then (content r.bx r.cx, r, true)
    else (memory, record r { ax = memory.value; dx = memory.counter }, false)

-- `atomic_dw_load` without X86_64_FAST_DW_LOAD, and on i686: memory and the target. The registers
-- hold anything before it.
unfoldable pub slow_dw_load : Registers → Content → Content × Content
unfolding cmpxchg
slow_dw_load r memory =
    let (memory', r', zf) = cmpxchg (record r { ax = r.bx; dx = r.cx }) memory in
    (memory', content r'.ax r'.dx)

-- a 128-bit register, low half first
abbrev pub Sse : Type 0
Sse = ℕ × ℕ

abbrev pub movdqa_load : Content → Sse
movdqa_load memory = (memory.value, memory.counter)

abbrev pub movq_low : Sse → ℕ
movq_low x = x.0

-- `punpckhqdq x, x`
abbrev pub punpckhqdq : Sse → Sse
punpckhqdq x = (x.1, x.1)

-- `atomic_dw_load` with X86_64_FAST_DW_LOAD
unfoldable pub fast_dw_load : Content → Content × Content
fast_dw_load memory =
    let sse = movdqa_load memory in (memory, content (movq_low sse) (movq_low (punpckhqdq sse)))

-- The loop of `atomic_dw_store` without X86_64_FAST_DW_STORE: `1: lock cmpxchg16b; jne 1b`, with
-- what the other threads do ahead of each round. `none` means that the fuel ran out.
unfoldable pub store_loop : ℕ → List (Content → Content) → Registers → Content → Option Content
unfolding cmpxchg others rest
store_loop zero env r memory = none
store_loop (suc fuel) env r memory =
    let (memory', r', zf) = cmpxchg r (others env memory) in
    let again = store_loop fuel (rest env) r' memory' in if zf then some memory' else again

-- `torn` is what the two plain reads ahead of the loop find, which need not be one content. One
-- round more than there are interferences and the first.
unfoldable pub slow_dw_store :
    (torn desired : Content) → List (Content → Content) → Content → Option Content
unfolding store_loop
slow_dw_store torn desired env memory =
    store_loop (suc (suc (length env))) env
      (record { ax = torn.value; dx = torn.counter; bx = desired.value; cx = desired.counter })
      memory

-- `atomic_dw_store` with X86_64_FAST_DW_STORE: `movq`, `pinsrq $1`, `movdqa`
unfoldable pub fast_dw_store : Content → Content → Content
fast_dw_store desired memory =
    let low : Sse = (desired.value, 0) in
    let sse : Sse = (low.0, desired.counter) in content sse.0 sse.1

-- `atomic_dw_cas`: memory, the flag and `expected` afterwards
unfoldable pub atomic_dw_cas : Content → Content → Content → Content × Bool × Content
unfolding cmpxchg
atomic_dw_cas memory expected desired =
    let (memory', r', zf) =
      cmpxchg
        (record {
          ax = expected.value;
          dx = expected.counter;
          bx = desired.value;
          cx = desired.counter;
        })
        memory in
    (memory', zf, content r'.ax r'.dx)

-- The operations on 32-bit words on i686 are the same instructions, with `cmpxchg8b` on the 32-bit
-- registers.
unfoldable pub dw_load_i686 : Registers → Content → Content × Content
unfolding slow_dw_load
dw_load_i686 r memory = slow_dw_load r memory

unfoldable pub dw_store_i686 :
    (torn desired : Content) → List (Content → Content) → Content → Option Content
unfolding slow_dw_store
dw_store_i686 torn desired env memory = slow_dw_store torn desired env memory

unfoldable pub dw_cas_32 : Content → Content → Content → Content × Bool × Content
unfolding atomic_dw_cas
dw_cas_32 memory expected desired = atomic_dw_cas memory expected desired

-- `shldq $32, from, to` and `shlq $32` on 64-bit registers
abbrev pub shld32 : (from to : ℕ) → ℕ
shld32 from to = bit_or (to * 2 ^ 32 % 2 ^ 64) (from / 2 ^ 32)

abbrev pub shl32 : ℕ → ℕ
shl32 x = x * 2 ^ 32 % 2 ^ 64

-- `atomic_dw_load` of two 32-bit words on x86-64, which are one 64-bit word of memory. `dx` is what
-- the register holds before it.
unfoldable pub narrow_dw_load : (dx memory : ℕ) → Content
narrow_dw_load dx memory = let ax : ℕ = memory in content (ax % 2 ^ 32) (shld32 ax dx % 2 ^ 32)

-- `atomic_dw_store` of two 32-bit words on x86-64: the memory afterwards. The upper halves of the
-- two registers hold anything before it.
unfoldable pub narrow_dw_store : (upper_bx upper_cx : ℕ) → Content → ℕ
narrow_dw_store upper_bx upper_cx desired =
    let bx : ℕ = upper_bx * 2 ^ 32 + desired.value in
    let cx : ℕ = upper_cx * 2 ^ 32 + desired.counter in let bx' : ℕ = shl32 bx in shld32 bx' cx
