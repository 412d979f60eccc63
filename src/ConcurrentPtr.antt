-- ===== src/ConcurrentPtr.antt =====
-- src/concurrentfw/concurrent_ptr.hpp: the class `Concurrent_Ptr<T>`, a pointer in an `ABA_Wrapper`.
pub mod Laws
pub mod Shared
pub mod Linked
mod Examples
use concurrentfw.Prelude.{ℕ, Bool, true, false, Option, none, some, List, []}
use concurrentfw.AbaWrapper.{Content}
use concurrentfw.AbaWrapper.Dwcas
use concurrentfw.AbaWrapper.Llsc
use concurrentfw.AbaWrapper.Llsc.{Meanwhile}
use concurrentfw.Arm.{Monitor}
use concurrentfw.AbaWrapper.Layout.{PlatformAbaSolution, dwcas, llsc}

-- The member `aba_ptr`, on each kind of platform.
abbrev pub ConcurrentPtr : PlatformAbaSolution → Type 0
ConcurrentPtr dwcas = Content
ConcurrentPtr llsc = Monitor ℕ

-- What other threads may do during a call.
abbrev pub Environment : PlatformAbaSolution → Type 0
Environment dwcas = List (Content → Content)
Environment llsc = List Meanwhile

unfoldable pub construct : (p : PlatformAbaSolution) → ℕ → ConcurrentPtr p
unfolding Dwcas.construct Llsc.construct
construct dwcas init = Dwcas.construct init
construct llsc init = Llsc.construct init

-- `set`: the lambda ignores the cached pointer and always stores. `w` is the width of a pointer in
-- bits; the result of `modify` is dropped.
unfoldable pub set :
    (w : ℕ) (p : PlatformAbaSolution) (ptr : ℕ)
    → Environment p
    → ConcurrentPtr p
    → Option (ConcurrentPtr p × Bool)
unfolding Dwcas.modify Llsc.modify
set w dwcas ptr env c = Dwcas.modify w (λ _. some ptr) env c
set w llsc ptr env c = Llsc.modify (λ _. some ptr) env c

unfoldable pub get : (p : PlatformAbaSolution) → ConcurrentPtr p → ℕ
unfolding Dwcas.get Llsc.get
get dwcas c = Dwcas.get c
get llsc c = Llsc.get c

unfoldable pub get_counter : (p : PlatformAbaSolution) → ConcurrentPtr p → ℕ
unfolding Dwcas.get_counter Llsc.get_counter
get_counter dwcas c = Dwcas.get_counter c
get_counter llsc c = Llsc.get_counter c
