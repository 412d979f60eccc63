-- ===== src/Sysconf/Replies.antt =====
-- `sysconf<size_t>` of src/concurrentfw/sysconf.hpp against the three kinds of replies that
-- sysconf(3) documents.
use concurrentfw.Prelude.{ℕ, ◌-◌, ◌^◌, ◌<◌, ◌≡◌, ◌≢◌, arith}
use concurrentfw.Sysconf.{Platform, Answer, returned, thrown, Process, sysconf}

pub data Reply : Type 0 where
  limit : ℕ → Reply
  no_limit : Reply
  error : ℕ → Reply

module _ (w : ℕ) where
  -- The result and `errno` of a reply, from `errno` before the call: only an error sets it.
  abbrev pub encoded : Reply → ℕ → ℕ × ℕ
  encoded (limit n) errno = (n, errno)
  encoded no_limit errno = (2 ^ w - 1, errno)
  encoded (error e) errno = (2 ^ w - 1, e)

  -- A limit is no negative `long`, and an error has a code.
  abbrev pub Documented : Reply → Type 0
  Documented (limit n) = n < 2 ^ w - 1
  Documented no_limit = Unit
  Documented (error e) = e ≢ 0

  abbrev pub meaning : Reply → Answer
  meaning (limit n) = returned n
  meaning no_limit = returned (2 ^ w - 1)
  meaning (error e) = thrown e

  -- Whatever `errno` an earlier call has left behind, `sysconf` tells the three documented kinds of
  -- replies apart: it returns a limit, throws the code of an error, and returns the greatest
  -- `size_t` where there is no limit. The two statics stay as they are.
  pub sysconf_lem :
      (p : Platform) (name : ℕ) (s : Process p) (reply : Reply) (os' : p.State)
      → Documented reply
      → p.ask s.os 0 name ≡ (os', (encoded reply 0).0, (encoded reply 0).1)
      → ((sysconf w p name s).1 ≡ meaning reply)
        × ((sysconf w p name s).0.line_value ≡ s.line_value)
        × ((sysconf w p name s).0.page_value ≡ s.page_value)
  unfolding sysconf
  sysconf_lem p name s (limit n) os' d h = ground arith
  sysconf_lem p name s no_limit os' d h = ground arith
  sysconf_lem p name s (error e) os' d h = ground arith
