-- ===== src/Retention/Window.antt =====
-- The window in which an event may be counted lies inside what the inbox remembers.
use kafka_lab.Base.{arith, false, true, ◌*◌, ◌↔◌, ◌≡◌}
use kafka_lab.Base.Int.{
  +ℤ_parts, -ℤ_parts, int_laws, le→ltb_ℤ, ltb_ℤ, pos, ℤ, ◌+ℤ◌, ◌-ℤ◌, ◌<ℤ◌, ◌≤ℤ◌,
}
use kafka_lab.Base.Time.{Duration, Time, saturate, time_after}
use kafka_lab.Base.Errors.{ok}
use kafka_lab.Retention.{
  Horizons, can_be_deduplicated, clock_skew_allowance, inbox_cutoff, min_inbox_horizon,
  new_horizons, shortest_inbox,
}

-- Saturating a difference does not change which side of a bound inside the range it lies on.
ltb-saturate : (d : ℤ) → ltb_ℤ (saturate d) min_inbox_horizon ≡ ltb_ℤ d min_inbox_horizon
ltb-saturate d = ground arith

-- An event can be deduplicated exactly while the judging clock is less than 39 days past the
-- moment it happened, for all instants: the saturation of `time.Time.Sub` makes no difference.
pub can_be_deduplicated_iff :
    (occurred_at now : Time)
    → (can_be_deduplicated occurred_at now ≡ true)
      ↔ (now.instant <ℤ occurred_at.instant +ℤ pos (39 * 86400 * 1_000_000_000))
unfolding can_be_deduplicated
can_be_deduplicated_iff occurred_at now = rw (ltb-saturate (now.instant -ℤ occurred_at.instant)) (
    grind (
      int_laws,
      -ℤ_parts now.instant occurred_at.instant,
      +ℤ_parts occurred_at.instant (pos (39 * 86400 * 1_000_000_000)),
    ))

horizons_long :
    (inbox outbox : Duration) (h : Horizons)
    → new_horizons inbox outbox ≡ ok h
    → shortest_inbox ≤ℤ h.inbox
unfolding new_horizons
horizons_long inbox outbox h made = ground arith

-- With horizons that the constructor accepts: if an event was counted at `consumed_at`, is judged
-- again at `now` and found young enough to be counted, and prune ran by a clock reading
-- `prune_now`, then its inbox row is not below the cutoff of that run, provided the three clocks
-- together are off by no more than the allowance (the API's `occurred_at` against the consumer's
-- `consumed_at`, and prune's clock against the judging one).
pub counted_is_remembered :
    (inbox outbox : Duration) (h : Horizons) (occurred_at consumed_at now prune_now : Time)
    → new_horizons inbox outbox ≡ ok h
    → can_be_deduplicated occurred_at now ≡ true
    → occurred_at.instant +ℤ prune_now.instant
      ≤ℤ consumed_at.instant +ℤ now.instant +ℤ clock_skew_allowance
    → time_after (inbox_cutoff h prune_now) consumed_at ≡ false
unfolding inbox_cutoff
counted_is_remembered inbox outbox h occurred_at consumed_at now prune_now made young skew =
    let young' = (can_be_deduplicated_iff occurred_at now).0 young in
    let long = horizons_long inbox outbox h made in
    le→ltb_ℤ consumed_at.instant (prune_now.instant +ℤ (pos 0 -ℤ h.inbox)) (omega int_laws)
