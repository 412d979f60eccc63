-- ===== src/Sysconf/Examples.antt =====
-- The theorems on `sysconf`, `cache_line` and `page_size` on an operating system that refuses its
-- first two questions with EINVAL.
use concurrentfw.Prelude.{ℕ, zero, suc, ◌-◌, ◌^◌, refl, none, [], ◌∷◌}
use concurrentfw.Sysconf.{Platform, Process}
use concurrentfw.Sysconf.Cache.{cache_line_call, page_size_call, Settled, answers, answers-Settled}

abbrev late : Platform
late = record {
  State = ℕ;
  ask = λ asked errno name. elim asked [
    | suc (suc n) ↦ (suc (suc n), 64, errno)
    | suc zero ↦ (2, 2 ^ 64 - 1, 22)
    | zero ↦ (1, 2 ^ 64 - 1, 22)
  ];
  sc_level1_dcache_linesize = 190;
  sc_pagesize = 30;
}

abbrev fresh : Process late
fresh = record { os = 0; errno = 5; line_value = none; page_value = none }

answers-Settled_example : Settled (
    answers 64 late cache_line_call
      (cache_line_call ∷ page_size_call ∷ cache_line_call ∷ cache_line_call ∷ [])
      fresh)
answers-Settled_example =
    answers-Settled 64 late cache_line_call
      (cache_line_call ∷ page_size_call ∷ cache_line_call ∷ cache_line_call ∷ []) fresh refl
