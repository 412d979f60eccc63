-- ===== src/Atomic/Views.antt =====
-- src/concurrentfw/atomic.hpp: what the memory order of an operation means for other memory, by the
-- C++ memory model, and `atomic_thread_fence`.
--
-- Writes to other memory are numbered. A view is a set of them: those that happen before. A thread
-- has the view that it acts on, one that an acquire fence would add to it, from what its relaxed
-- operations have read, and the one that its last release fence has kept for its relaxed stores.
-- The value of an atomic object carries the views of the heads of the release sequences that it
-- belongs to. `consume` is `acquire`, as compilers implement it.
use concurrentfw.Prelude.{ℕ, ◌≡◌, Bool, true, false, ◌||◌, List, [], ◌∷◌, ◌==◌, if◌then◌else◌}
use concurrentfw.Atomic.Order.{MemoryOrder, relaxed, consume, acquire, release, acq_rel, seq_cst}

abbrev pub View : Type 0
View = ℕ → Bool

abbrev pub nothing : View
nothing e = false

abbrev pub join : View → View → View
join a b e = a e || b e

-- All of the second view is in the first.
abbrev pub Includes : View → View → Type 0
Includes more less = (e : ℕ) → less e ≡ true → more e ≡ true

-- A release sequence of C++11 to C++17 also holds later stores of the thread that heads it; since
-- C++20 it goes on with read-modify-write operations only.
pub data Standard : Type 0 where
  cpp17 cpp20 : Standard

pub record Thread : Type 0 where
  pub current : View
  pub acquirable : View
  pub fenced : View

abbrev pub fresh : Thread
fresh = record { current = nothing; acquirable = nothing; fenced = nothing }

pub record Head : Type 0 where
  pub thread : ℕ
  pub view : View

abbrev pub Message : Type 0
Message = List Head

abbrev pub acquires : MemoryOrder → Bool
acquires relaxed = false
acquires release = false
acquires consume = true
acquires acquire = true
acquires acq_rel = true
acquires seq_cst = true

abbrev pub releases : MemoryOrder → Bool
releases relaxed = false
releases consume = false
releases acquire = false
releases release = true
releases acq_rel = true
releases seq_cst = true

-- What a reader can acquire.
unfoldable pub carried : Message → View
carried [] = nothing
carried (h ∷ hs) = join h.view (carried hs)

-- `load`, and the first half of an operation that reads and writes.
unfoldable pub load : MemoryOrder → Message → Thread → Thread
load o message t = record t {
  current = if acquires o then join t.current (carried message) else t.current;
  acquirable = join t.acquirable (carried message);
}

-- The sequence that a write of thread `i` heads; one of a relaxed write carries what a fence kept.
unfoldable pub head : ℕ → MemoryOrder → Thread → Head
head i o t = record { thread = i; view = if releases o then t.current else t.fenced }

-- The sequences that go on past a store of thread `i`.
unfoldable pub continued : Standard → ℕ → Message → Message
continued cpp20 i message = []
continued cpp17 i [] = []
continued cpp17 i (h ∷ hs) =
    let rest = continued cpp17 i hs in if h.thread == i then h ∷ rest else rest

unfoldable pub store : Standard → ℕ → MemoryOrder → Thread → Message → Message
unfolding head continued
store std i o t message = head i o t ∷ continued std i message

-- The operations that read and write in one step, which all sequences go on past: `exchange`, a
-- `compare_exchange` that succeeds, and the fetch and modify operations.
unfoldable pub modify : ℕ → MemoryOrder → Thread → Message → Thread × Message
unfolding load head
modify i o t message = let t' = load o message t in (t', head i o t' ∷ message)

-- `atomic_thread_fence`
unfoldable pub fence : MemoryOrder → Thread → Thread
fence o t =
    let known : View = if acquires o then join t.current t.acquirable else t.current in
    record t { current = known; fenced = if releases o then known else t.fenced }
