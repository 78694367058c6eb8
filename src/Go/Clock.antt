-- ===== src/Go/Clock.antt =====
-- time.Time and time.Duration. A time is its distance in nanoseconds from a fixed early instant;
-- a duration is an int64 number of nanoseconds.
use failure_detector.Prelude.{ℕ, suc, ◌+◌, ◌-◌, Bool, ltb, if◌then◌else◌}
use failure_detector.Prelude.Int.{ℤ, pos, negsuc, sub_ℕ, i64_end}

abbrev pub Time : Type 0
Time = ℕ

abbrev pub Duration : Type 0
Duration = ℤ

-- `t.After(u)`; `t.Before(u)` is `after u t`.
abbrev pub after : Time → Time → Bool
after t u = ltb u t

-- The nearest int64.
abbrev pub saturate : ℤ → Duration
saturate (pos n) = if ltb n i64_end then pos n else pos (i64_end - 1)
saturate (negsuc n) = if ltb n i64_end then negsuc n else negsuc (i64_end - 1)

-- `t.Sub(u)`: "if the result exceeds the maximum (or minimum) value that can be stored in a
-- Duration, the maximum (or minimum) duration will be returned".
unfoldable pub since : Time → Time → Duration
since t u = saturate (sub_ℕ t u)

-- `t.Add(d)`
unfoldable pub add : Time → Duration → Time
add t (pos n) = t + n
add t (negsuc n) = t - suc n
