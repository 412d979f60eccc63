-- ===== src/AbaWrapper.antt =====
-- src/concurrentfw/aba_wrapper.hpp: the union `ABA_Wrapper<T>`, a word that a lambda modifies
-- atomically, with a counter beside it on platforms with a double-word compare-and-swap (DWCAS) or
-- the exclusive monitor of the processor on those with load-linked and store-conditional (LLSC).
pub mod Layout
pub mod Dwcas
pub mod Llsc
pub mod Lockfree
pub mod Publication
mod Examples
use concurrentfw.Prelude.{ℕ, Bool, true, false, ◌&&◌, ◌==◌, if◌then◌else◌, ◌+◌, ◌%◌, ◌^◌}

-- `WrapperContent`: the two words of `atomic`; `data` is the first of them.
pub record Content : Type 0 where
  pub value : ℕ
  pub counter : ℕ

abbrev pub content : ℕ → ℕ → Content
content v c = record { value = v; counter = c }

abbrev pub same : Content → Content → Bool
same a b = a.value == b.value && a.counter == b.counter
