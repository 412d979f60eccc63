-- ===== src/ConcurrentPtr/Shared.antt =====
-- Any number of threads over one `Concurrent_Ptr` (src/concurrentfw/concurrent_ptr.hpp) on a platform with
-- DWCAS, interleaved in any order, with the memory orders. `set` and `get` are cut at their accesses to
-- the wrapper.
pub mod Register
mod Examples
use concurrentfw.Prelude.{ℕ, ◌≡◌, Bool, true, false, List, [], ◌∷◌, ◌++◌, if◌then◌else◌, update}
use concurrentfw.AbaWrapper.{Content, same}
use concurrentfw.AbaWrapper.Dwcas.{dw_cas, next}
use concurrentfw.AbaWrapper.Dwcas
use concurrentfw.AbaWrapper.Publication.{
  Views, at_start, dw_load_order, dw_cas_order, reads, swaps, publishes, learns,
}

pub data Pc : Type 0 where
  idle : Pc  -- not in a call
  set_start : ℕ → Pc  -- before the load in `modify`
  set_cached : ℕ → Content → Pc  -- before the compare-and-swap
  get_start : Pc  -- before the load in `get`

-- What an access means for the caller: the pointer is set, or `get` returns one.
pub data Event : Type 0 where
  silent : Event
  stored : ℕ → Event
  got : ℕ → Event

-- The end of a round of the loop of `modify` in `set`, whose lambda never declines.
unfoldable pub set_swapped : ℕ → Bool × Content → Pc × Event
set_swapped ptr (true, cache) = (idle, stored ptr)
set_swapped ptr (false, cache) = (set_cached ptr cache, silent)

-- One access, and the code up to the next one.
unfoldable pub run : ℕ → Content → Pc → Content × Pc × Event
unfolding dw_cas next set_swapped Dwcas.get
run w m idle = (m, idle, silent)
run w m (set_start ptr) = (m, set_cached ptr m, silent)
run w m (set_cached ptr cache) =
    let (m', done, cache') = dw_cas m cache (next w cache ptr) in
    let (pc', event) = set_swapped ptr (done, cache') in (m', pc', event)
run w m get_start = (m, idle, got (Dwcas.get m))

-- What the access at `pc` does to the views.
unfoldable pub observe : ℕ → Content → Pc → Views → Views
observe i m (set_start ptr) v = reads dw_load_order i v
observe i m get_start v = reads dw_load_order i v
observe i m (set_cached ptr cache) v =
    if same m cache then swaps i (publishes i ptr v) else reads dw_cas_order i v
observe i m idle v = v

-- The history so far, the content of the wrapper, where the threads are, and their views.
pub data Reach (w init : ℕ) : List Event → Content → (ℕ → Pc) → Views → Type 0 where
  start : Reach w init [] (Dwcas.construct init) (λ _. idle) at_start
  call_set :
      {es : List Event} {m : Content} {pc : ℕ → Pc} {v : Views}
      → Reach w init es m pc v
      → (i ptr : ℕ) → pc i ≡ idle
      → Reach w init es m (update pc i (set_start ptr)) v
  call_get :
      {es : List Event} {m : Content} {pc : ℕ → Pc} {v : Views}
      → Reach w init es m pc v
      → (i : ℕ) → pc i ≡ idle
      → Reach w init es m (update pc i get_start) v
  access :
      {es : List Event} {m : Content} {pc : ℕ → Pc} {v : Views}
      → Reach w init es m pc v
      → (i : ℕ)
      → Reach w init
          (es ++ (run w m (pc i)).2 ∷ [])
          (run w m (pc i)).0
          (update pc i (run w m (pc i)).1)
          (observe i m (pc i) v)
  learned :
      {es : List Event} {m : Content} {pc : ℕ → Pc} {v : Views}
      → Reach w init es m pc v
      → (i e : ℕ) → Reach w init es m pc (learns i e v)
