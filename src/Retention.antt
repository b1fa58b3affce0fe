-- ===== src/Retention.antt =====
-- internal/domain/retention/horizons.go: how long the bookkeeping tables remember.
pub mod Window
use kafka_lab.Base.{Bool, not, ◌*◌, ◌+◌}
use kafka_lab.Base.Int.{leb_ℤ, ltb_ℤ, pos, pos_part, ◌-ℤ◌}
use kafka_lab.Base.Time.{Duration, Time, hours, time_add, time_sub}
use kafka_lab.Base.Errors.{
  Result, inbox_horizon_too_short, ok, outbox_horizon, require, ◌>>=◌, ◌>>◌,
}

abbrev pub day : Duration
day = hours 24

abbrev pub segment_roll : Duration
segment_roll = day

abbrev pub dead_letter_lifetime : Duration
dead_letter_lifetime = pos (30 * pos_part day + pos_part segment_roll)

abbrev pub retry_tier_lifetime : Duration
retry_tier_lifetime = pos (7 * pos_part day + pos_part segment_roll)

abbrev pub min_inbox_horizon : Duration
min_inbox_horizon = pos (pos_part dead_letter_lifetime + pos_part retry_tier_lifetime)

abbrev pub clock_skew_allowance : Duration
clock_skew_allowance = day

unfoldable pub can_be_deduplicated : Time → Time → Bool
unfolding time_sub
can_be_deduplicated occurred_at now = ltb_ℤ (time_sub now occurred_at) min_inbox_horizon

pub record Horizons : Type 0 where
  pub inbox : Duration
  pub outbox : Duration

abbrev pub shortest_inbox : Duration
shortest_inbox = pos (pos_part min_inbox_horizon + pos_part clock_skew_allowance)

unfoldable pub new_horizons : Duration → Duration → Result Horizons
new_horizons inbox outbox = do
  require (not (ltb_ℤ inbox shortest_inbox)) inbox_horizon_too_short
  require (not (leb_ℤ outbox (pos 0))) outbox_horizon
  ok (record { inbox = inbox; outbox = outbox })

unfoldable pub inbox_cutoff : Horizons → Time → Time
unfolding time_add
inbox_cutoff h now = time_add now (pos 0 -ℤ h.inbox)

unfoldable pub outbox_cutoff : Horizons → Time → Time
unfolding time_add
outbox_cutoff h now = time_add now (pos 0 -ℤ h.outbox)
