-- ===== src/Util.antt =====
-- src/util.c: times of capture and the pure text helpers. A time is two numbers that are not
-- negative; texts are lists of bytes.
use sngrep.Common.{ℕ, ◌+◌, ◌*◌, Bool, leb}

pub record Timeval : Type 0 where
  pub tv_sec : ℕ
  pub tv_usec : ℕ

-- Microseconds, as `timeval_is_older` computes them.
abbrev pub micros : Timeval → ℕ
micros t = t.tv_sec * 1000000 + t.tv_usec

unfoldable pub timeval_is_older : Timeval → Timeval → Bool
timeval_is_older t1 t2 = leb (micros t2) (micros t1)
