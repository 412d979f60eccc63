-- ===== src/Sysconf/Cache.antt =====
-- The answers of `cache_line` and `page_size` (src/sysconf.cpp) over the life of a process.
use concurrentfw.Prelude.{ℕ, ◌≡◌, Option, none, some, List, [], ◌∷◌, ◌∙◌, arith}
use concurrentfw.Sysconf.{
  Platform, Answer, returned, thrown, Process, initialized, cache_line, page_size,
}

pub data Call : Type 0 where
  cache_line_call page_size_call : Call

-- All the answers are `v`.
pub data Returns (v : ℕ) : List Answer → Type 0 where
  no_more : Returns v []
  again : {log : List Answer} → Returns v log → Returns v (returned v ∷ log)

-- Some calls that throw, then only calls that return one value.
pub data Settled : List Answer → Type 0 where
  constant : (v : ℕ) {log : List Answer} → Returns v log → Settled log
  throws : (e : ℕ) {log : List Answer} → Settled log → Settled (thrown e ∷ log)

abbrev pub put : Call → Call → Answer → List Answer → List Answer
put cache_line_call cache_line_call a log = a ∷ log
put page_size_call page_size_call a log = a ∷ log
put cache_line_call page_size_call a log = log
put page_size_call cache_line_call a log = log

module _ (w : ℕ) (p : Platform) where
  unfoldable pub make : Call → Process p → Process p × Answer
  make cache_line_call s = cache_line w p s
  make page_size_call s = page_size w p s

  abbrev held : Call → Process p → Option ℕ
  held cache_line_call s = s.line_value
  held page_size_call s = s.page_value

  -- The answers to the calls of one of the two functions, among calls of both, in order.
  unfoldable pub answers : Call → List Call → Process p → List Answer
  answers c [] s = []
  answers c (d ∷ ds) s = put c d (make d s).1 (answers c ds (make d s).0)

  -- A value that is held is returned, and nothing changes.
  make_held : (c : Call) (s : Process p) (v : ℕ) → held c s ≡ some v → make c s ≡ (s, returned v)
  unfolding make cache_line page_size
  make_held c s v h = ground arith

  make_empty :
      (c : Call) (s : Process p) → held c s ≡ none → held c (make c s).0 ≡ initialized (make c s).1
  unfolding make cache_line page_size
  make_empty c s h = ground arith

  line_other : (s : Process p) → (page_size w p s).0.line_value ≡ s.line_value
  unfolding page_size
  line_other s = ground arith

  page_other : (s : Process p) → (cache_line w p s).0.page_value ≡ s.page_value
  unfolding cache_line
  page_other s = ground arith

  answers-Returns :
      (c : Call) (ds : List Call) (s : Process p) (v : ℕ)
      → held c s ≡ some v
      → Returns v (answers c ds s)
  unfolding answers make
  answers-Returns c [] s v h = no_more
  answers-Returns cache_line_call (cache_line_call ∷ ds) s v h =
      rw (make_held cache_line_call s v h) (again (answers-Returns cache_line_call ds s v h))
  answers-Returns page_size_call (page_size_call ∷ ds) s v h =
      rw (make_held page_size_call s v h) (again (answers-Returns page_size_call ds s v h))
  answers-Returns cache_line_call (page_size_call ∷ ds) s v h =
      answers-Returns cache_line_call ds _ v (line_other s ∙ h)
  answers-Returns page_size_call (cache_line_call ∷ ds) s v h =
      answers-Returns page_size_call ds _ v (page_other s ∙ h)

  first_answer :
      (c : Call) (ds : List Call) (s : Process p) (a : Answer)
      → held c s ≡ initialized a
      → (held c s ≡ none → Settled (answers c ds s))
      → Settled (a ∷ answers c ds s)
  unfolding initialized
  first_answer c ds s (returned v) h more = constant v (again (answers-Returns c ds s v h))
  first_answer c ds s (thrown e) h more = throws e (more h)

  -- From a process in which the function has not returned yet, and in any sequence of calls of both
  -- functions, its calls first throw, any number of times, and from the first that returns a value
  -- on all return that value.
  pub answers-Settled :
      (c : Call) (ds : List Call) (s : Process p) → held c s ≡ none → Settled (answers c ds s)
  unfolding answers make
  answers-Settled c [] s h = constant 0 no_more
  answers-Settled cache_line_call (cache_line_call ∷ ds) s h =
      first_answer cache_line_call ds _ _ (make_empty cache_line_call s h)
        (answers-Settled cache_line_call ds _)
  answers-Settled page_size_call (page_size_call ∷ ds) s h =
      first_answer page_size_call ds _ _ (make_empty page_size_call s h)
        (answers-Settled page_size_call ds _)
  answers-Settled cache_line_call (page_size_call ∷ ds) s h =
      answers-Settled cache_line_call ds _ (line_other s ∙ h)
  answers-Settled page_size_call (cache_line_call ∷ ds) s h =
      answers-Settled page_size_call ds _ (page_other s ∙ h)
