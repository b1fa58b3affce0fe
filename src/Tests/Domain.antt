-- ===== src/Tests/Domain.antt =====
-- Payments, merchants and retention.
use kafka_lab.Base.{All, List, [], arith, false, length, refl, true, ◌*◌, ◌++◌, ◌↔◌, ◌∷◌, ◌≡◌}
use kafka_lab.Base.Int.{pos, ◌+ℤ◌, ◌-ℤ◌, ◌<ℤ◌}
use kafka_lab.Base.Text.{codes, runes}
use kafka_lab.Base.Time.{hours, time_after, zero_time}
use kafka_lab.Base.Errors.{currency_format, err, ok}
use kafka_lab.Payment.Money.{Money, parse_currency}
use kafka_lab.Payment.Identity.{MerchantId}
use kafka_lab.Payment.Events.{Event}
use kafka_lab.Payment.Aggregate.{Payment, Status, authorize, capture, movement, refund}
use kafka_lab.Payment.Lifecycle.{
  Command, Moved, announced, capture_at, live, live-announced, move-Moved, obey, pull, refund_at,
  repeat_changes_nothing,
}
use kafka_lab.Payment.Format.{IsUpperByte, parse_currency_iff}
use kafka_lab.Retention.{can_be_deduplicated, inbox_cutoff, new_horizons}
use kafka_lab.Retention.Window.{can_be_deduplicated_iff, counted_is_remembered}
use kafka_lab.Tests.Fixtures.{moment}

abbrev twenty_euros : Money
twenty_euros = record { minor = pos 1999; currency = record { code = codes "EUR" } }

abbrev shop : MerchantId
shop = record { value = codes "m-42" }

abbrev first_payment : Payment
first_payment =
    let p : Payment = record {
      id = record { value = 1 };
      merchant = shop;
      amount = twenty_euros;
      status = Status.authorized;
      history = record {
        authorized_at = moment 10;
        captured_at = zero_time;
        refunded_at = zero_time;
      };
      events = [];
    } in
    record p { events = Event.authorized (movement p (moment 10)) ∷ [] }

first_payment_made :
    authorize (record { value = 1 }) shop twenty_euros (moment 10) ≡ ok first_payment
unfolding authorize
first_payment_made = refl

abbrev commands : List Command
commands =
    refund_at (moment 11)
    ∷ capture_at (moment 12)
    ∷ pull
    ∷ capture_at (moment 13)
    ∷ refund_at (moment 14)
    ∷ []

live-announced_example :
    let (out, q) = live commands ([], first_payment) in out ++ q.events ≡ announced q.status q
live-announced_example =
    live-announced (record { value = 1 }) shop twenty_euros (moment 10) first_payment commands
      first_payment_made

-- The early refund and the second capture leave no trace.
commands_run :
    let (out, q) = live commands ([], first_payment) in
    (q.status ≡ Status.refunded) × (length out ≡ 2) × (length q.events ≡ 1)
unfolding live obey
commands_run = (refl, refl, refl)

move-Moved_example :
    Moved first_payment Status.captured (capture first_payment (moment 12))
    × Moved first_payment Status.refunded (refund first_payment (moment 12))
move-Moved_example = move-Moved first_payment (moment 12)

repeat_changes_nothing_example :
    (capture (capture first_payment (moment 12)).0 (moment 13) ≡ capture first_payment (moment 12))
    × (refund (refund first_payment (moment 12)).0 (moment 13) ≡ refund first_payment (moment 12))
repeat_changes_nothing_example = repeat_changes_nothing first_payment (moment 12) (moment 13)

parse_currency_iff_example :
    (parse_currency (codes "EUR") ≡ ok (record { code = codes "EUR" }))
    ↔ ((codes "EUR" ≡ codes "EUR") × (length (codes "EUR") ≡ 3) × All IsUpperByte (codes "EUR"))
parse_currency_iff_example = parse_currency_iff (codes "EUR") (record { code = codes "EUR" })

-- A capital letter of three bytes in another script is no currency.
parse_currency_bytes : parse_currency (0xE2 ∷ 0x84 ∷ 0xAC ∷ []) ≡ err (currency_format ∷ [])
unfolding parse_currency runes
parse_currency_bytes = refl

can_be_deduplicated_iff_example :
    (can_be_deduplicated (moment 10) (moment 20) ≡ true)
    ↔ ((moment 20).instant <ℤ (moment 10).instant +ℤ pos (39 * 86400 * 1_000_000_000))
can_be_deduplicated_iff_example = can_be_deduplicated_iff (moment 10) (moment 20)

forty_days :
    new_horizons (hours 960) (hours 24) ≡ ok (record { inbox = hours 960; outbox = hours 24 })
unfolding new_horizons
forty_days = refl

counted_is_remembered_example :
    time_after
      (inbox_cutoff (record { inbox = hours 960; outbox = hours 24 }) (moment 86_410))
      (moment 10)
    ≡ false
unfolding can_be_deduplicated ◌+ℤ◌ ◌-ℤ◌
counted_is_remembered_example =
    counted_is_remembered (hours 960) (hours 24) (record { inbox = hours 960; outbox = hours 24 })
      (moment 10) (moment 10) (moment 10) (moment 86_410) forty_days refl (omega arith)
