-- ===== src/UseCases/Movement.antt =====
-- internal/application/merchants/record_movement.go: an event off the topic, and what the domain
-- makes of it.
use kafka_lab.Base.Int.{ℤ}
use kafka_lab.Base.Text.{Text}
use kafka_lab.Base.Time.{Time}
use kafka_lab.Base.Errors.{Result, ◌>>=◌}
use kafka_lab.Merchant.{Entry, Kind, new_amount, new_entry}

pub record PaymentEvent : Type 0 where
  pub kind : Kind
  pub event_id : Text
  pub merchant_id : Text
  pub amount_minor : ℤ
  pub currency : Text
  pub occurred_at : Time

-- `movementOf`
unfoldable pub movement_of : PaymentEvent → Result Entry
unfolding new_amount new_entry
movement_of event = do
  amount ← new_amount event.amount_minor event.currency
  new_entry event.kind event.event_id event.merchant_id amount
