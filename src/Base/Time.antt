-- ===== src/Base/Time.antt =====
-- Go's time.Time as the code uses it: an instant in nanoseconds since January 1, year 1, 00:00 UTC
-- (the zero Time), and the UTC offset that the value is displayed with. time.Duration is an
-- integer of nanoseconds. The wrap-around of int64 lies centuries outside the times in use.
use mathlib.Core.Bool.{Bool}
use kube_workload_lm.Base.Int.{ℤ, pos, ◌+ℤ◌, ltb_ℤ, ◌==ℤ◌}

pub record Time : Type 0 where
  pub instant : ℤ
  pub offset : ℤ

-- `t.IsZero()`
abbrev pub is_zero : Time → Bool
is_zero t = t.instant ==ℤ pos 0

-- `t.UTC()`
abbrev pub utc : Time → Time
utc t = record t { offset = pos 0 }

-- `t.Before(u)`
abbrev pub before : Time → Time → Bool
before t u = ltb_ℤ t.instant u.instant

-- `t.Add(d)`
abbrev pub add : Time → ℤ → Time
add t d = record t { instant = t.instant +ℤ d }

-- The time that an uninitialised field holds.
abbrev pub zero_time : Time
zero_time = record { instant = pos 0; offset = pos 0 }
