-- ===== src/Payment/Events.antt =====
-- internal/domain/payment/events.go: what a payment announces.

use kafka_lab.Base.Time.{Time}
use kafka_lab.Payment.Money.{Money}
use kafka_lab.Payment.Identity.{MerchantId, PaymentId}

pub record Movement : Type 0 where
  pub payment_id : PaymentId
  pub merchant : MerchantId
  pub amount : Money
  pub occurred_at : Time

-- The sealed interface `Event`: one constructor for each type that implements it.
pub data Event : Type 0 where
  authorized : Movement → Event
  captured : Movement → Event
  refunded : Movement → Event

-- The methods that every event has from `movement`.
abbrev pub movement_of : Event → Movement
movement_of (Event.authorized m) = m
movement_of (Event.captured m) = m
movement_of (Event.refunded m) = m
