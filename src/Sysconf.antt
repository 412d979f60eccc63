-- ===== src/Sysconf.antt =====
-- src/concurrentfw/sysconf.hpp and src/sysconf.cpp: the question to the operating system with its
-- errors, and the two values that are asked for once.
--
-- `long` and `size_t` have `w` bits; a `long` is its bit pattern, so that -1 is 2 ^ w - 1 and the
-- cast to `size_t` keeps the pattern.
pub mod Cache
pub mod Replies
mod Examples
use concurrentfw.Prelude.{ℕ, ◌-◌, ◌^◌, not, Option, none, some, ◌&&◌, ◌==◌, if◌then◌else◌}

-- The function `sysconf` of unistd.h, which the code calls: from `errno` before the call and the
-- name, the result and `errno` afterwards. The names are the constants of unistd.h.
pub record Platform : Type 1 where
  pub State : Type 0
  pub ask : State → ℕ → ℕ → State × ℕ × ℕ
  pub sc_level1_dcache_linesize : ℕ
  pub sc_pagesize : ℕ

-- A call returns a value, or throws a `std::system_error` with an `errno`.
pub data Answer : Type 0 where
  returned : ℕ → Answer
  thrown : ℕ → Answer

-- `errno`, and the `static` variable of each of the two functions, which is empty until its
-- initializer has returned.
pub record Process (p : Platform) : Type 0 where
  pub os : p.State
  pub errno : ℕ
  pub line_value : Option ℕ
  pub page_value : Option ℕ

-- What a `static` holds after its initializer: an exception leaves it empty, for the next call to
-- try again.
unfoldable pub initialized : Answer → Option ℕ
initialized (returned v) = some v
initialized (thrown e) = none

module _ (w : ℕ) (p : Platform) where
  open p use {ask, sc_level1_dcache_linesize, sc_pagesize}

  -- `sysconf<size_t>`
  unfoldable pub sysconf : ℕ → Process p → Process p × Answer
  sysconf sysconf_name s =
      let (os', result, errno') = ask s.os 0 sysconf_name in
      (
        record s { os = os'; errno = errno' },
        if result == 2 ^ w - 1 && not (errno' == 0) then thrown errno' else returned result,
      )

  unfoldable pub cache_line : Process p → Process p × Answer
  unfolding sysconf initialized
  cache_line s = elim s.line_value [
    | some value ↦ (s, returned value)
    | none ↦
        let (s', a) = sysconf sc_level1_dcache_linesize s in
        (record s' { line_value = initialized a }, a)
  ]

  unfoldable pub page_size : Process p → Process p × Answer
  unfolding sysconf initialized
  page_size s = elim s.page_value [
    | some value ↦ (s, returned value)
    | none ↦ let (s', a) = sysconf sc_pagesize s in (record s' { page_value = initialized a }, a)
  ]
