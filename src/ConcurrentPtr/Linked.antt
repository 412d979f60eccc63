-- ===== src/ConcurrentPtr/Linked.antt =====
-- Any number of threads over one `Concurrent_Ptr` (src/concurrentfw/concurrent_ptr.hpp) on a platform with
-- LLSC, interleaved in any order, with the memory orders of either version of the ARM code.
pub mod Register
mod Examples
use concurrentfw.Prelude.{ℕ, ◌≡◌, Bool, true, false, List, [], ◌∷◌, ◌++◌, if◌then◌else◌, update}
use concurrentfw.Atomic.Views.{load}
use concurrentfw.Atomic.Order.{MemoryOrder, acquire}
use concurrentfw.Arm
use concurrentfw.Arm.{Monitor}
use concurrentfw.Arm.Orders
use concurrentfw.Arm.Orders.{Version, Processor}
use concurrentfw.AbaWrapper.Llsc
use concurrentfw.AbaWrapper.Publication.{Views, at_start, reads, publishes, learns}
use concurrentfw.ConcurrentPtr.Shared.{Event, silent, stored, got}

-- The word of the wrapper, and whether the monitor of each thread's processor is set.
pub record Memory : Type 0 where
  pub word : ℕ
  pub reserved : ℕ → Bool

abbrev pub view : ℕ → Memory → Monitor ℕ
view i m = record { memory = m.word; reserved = m.reserved i }

abbrev pub keep : ℕ → Monitor ℕ → Memory → Memory
keep i v m = record m { reserved = update m.reserved i v.reserved }

-- A store by one processor clears the monitors of all.
abbrev pub publish : Monitor ℕ → Memory
publish v = record { word = v.memory; reserved = λ _. false }

pub data Pc : Type 0 where
  idle : Pc  -- not in a call
  set_start : ℕ → Pc  -- before the exclusive load
  set_linked : ℕ → Pc  -- before the exclusive store
  get_start : Pc  -- before the load in `get`

-- One access, and the code up to the next one. A store that failed starts the loop of `modify` again.
unfoldable pub run : ℕ → Memory → Pc → Memory × Pc × Event
unfolding Arm.atomic_exclusive_load_aquire Arm.atomic_exclusive_store_release Llsc.get
run i m idle = (m, idle, silent)
run i m (set_start ptr) =
    let (v, cache) = Arm.atomic_exclusive_load_aquire (view i m) in
    (keep i v m, set_linked ptr, silent)
run i m (set_linked ptr) =
    let (v, done) = Arm.atomic_exclusive_store_release ptr (view i m) in
    if done then (publish v, idle, stored ptr) else (keep i v m, set_start ptr, silent)
run i m get_start = (m, idle, got (Llsc.get (view i m)))

-- `__ATOMIC_ACQUIRE` of the load in `get`
abbrev pub get_order : MemoryOrder
get_order = acquire

abbrev pub processor : ℕ → Memory → Views → Processor ℕ
processor i m v = record { monitor = view i m; message = v.message; thread = v.thread i }

abbrev pub proceeds : ℕ → Processor ℕ → Views → Views
proceeds i p v = record v { thread = update v.thread i p.thread; message = p.message }

-- What the access at `pc` does to the views.
unfoldable pub observe : Version → ℕ → Memory → Pc → Views → Views
observe version i m (set_start ptr) v =
    proceeds i (Orders.atomic_exclusive_load_aquire version (processor i m v)).0 v
observe version i m (set_linked ptr) v =
    let (p, done) = Orders.atomic_exclusive_store_release version i ptr (processor i m v) in
    if done then proceeds i p (publishes i ptr v) else proceeds i p v
observe version i m get_start v = reads get_order i v
observe version i m idle v = v

-- As on DWCAS; a processor clears its monitor at any time.
pub data Reach (version : Version) (init : ℕ)
    : List Event → Memory → (ℕ → Pc) → Views → Type 0 where
  start :
      Reach version init []
        (record {
          word = (Llsc.construct init).memory;
          reserved = λ _. (Llsc.construct init).reserved;
        })
        (λ _. idle)
        at_start
  call_set :
      {es : List Event} {m : Memory} {pc : ℕ → Pc} {v : Views}
      → Reach version init es m pc v
      → (i ptr : ℕ) → pc i ≡ idle
      → Reach version init es m (update pc i (set_start ptr)) v
  call_get :
      {es : List Event} {m : Memory} {pc : ℕ → Pc} {v : Views}
      → Reach version init es m pc v
      → (i : ℕ) → pc i ≡ idle
      → Reach version init es m (update pc i get_start) v
  clear :
      {es : List Event} {m : Memory} {pc : ℕ → Pc} {v : Views}
      → Reach version init es m pc v
      → (i : ℕ) → Reach version init es (record m { reserved = update m.reserved i false }) pc v
  access :
      {es : List Event} {m : Memory} {pc : ℕ → Pc} {v : Views}
      → Reach version init es m pc v
      → (i : ℕ)
      → Reach version init
          (es ++ (run i m (pc i)).2 ∷ [])
          (run i m (pc i)).0
          (update pc i (run i m (pc i)).1)
          (observe version i m (pc i) v)
  learned :
      {es : List Event} {m : Memory} {pc : ℕ → Pc} {v : Views}
      → Reach version init es m pc v
      → (i e : ℕ) → Reach version init es m pc (learns i e v)
