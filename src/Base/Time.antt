-- ===== src/Base/Time.antt =====
-- `time.Time` and `time.Duration`: an instant is in nanoseconds since the zero time, beside the
-- location it is shown in; a duration is in nanoseconds and has the bounds of `int64`.
use Prim.Native.Nat.{ℕ, ◌*◌, ◌-◌, ◌^◌}
use mathlib.Core.Bool.{Bool}
use kafka_lab.Base.Tests.{if◌then◌else◌}
use kafka_lab.Base.Int.{eqb_ℤ, ltb_ℤ, negsuc, pos, ℤ, ◌+ℤ◌, ◌-ℤ◌}

pub data Zone : Type 0 where
  utc : Zone
  other_zone : ℕ → Zone

pub record Time : Type 0 where
  pub instant : ℤ
  pub zone : Zone

abbrev pub Duration : Type 0
Duration = ℤ

-- `time.Time{}`
abbrev pub zero_time : Time
zero_time = record { instant = pos 0; zone = utc }

-- `IsZero`: the location does not matter.
abbrev pub is_zero_time : Time → Bool
is_zero_time t = eqb_ℤ t.instant (pos 0)

-- `UTC`
abbrev pub to_utc : Time → Time
to_utc t = record { instant = t.instant; zone = utc }

abbrev pub max_duration : ℤ
max_duration = pos (2 ^ 63 - 1)

abbrev pub min_duration : ℤ
min_duration = negsuc (2 ^ 63 - 1)

abbrev pub saturate : ℤ → Duration
saturate d =
    if ltb_ℤ max_duration d then max_duration else if ltb_ℤ d min_duration then min_duration else d

-- `t.Sub(u)`, which stops at the bounds of a duration.
unfoldable pub time_sub : Time → Time → Duration
time_sub t u = saturate (t.instant -ℤ u.instant)

-- `t.Add(d)`
unfoldable pub time_add : Time → Duration → Time
time_add t d = record { instant = t.instant +ℤ d; zone = t.zone }

-- `t.After(u)`
abbrev pub time_after : Time → Time → Bool
time_after t u = ltb_ℤ u.instant t.instant

abbrev pub seconds : ℕ → Duration
seconds n = pos (n * 1_000_000_000)

abbrev pub minutes : ℕ → Duration
minutes n = seconds (n * 60)

abbrev pub hours : ℕ → Duration
hours n = minutes (n * 60)
