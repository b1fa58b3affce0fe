-- ===== src/Outboxwire.antt =====
-- internal/infrastructure/outboxwire/outboxwire.go: the format of an outbox row.
use kafka_lab.Base.Int.{ℤ}
use kafka_lab.Base.Text.{Text, codes}
use kafka_lab.Base.Time.{Time}
use kafka_lab.Base.Errors.{Result}

abbrev pub event_type_authorized : Text
event_type_authorized = codes "payment.authorized"

abbrev pub event_type_captured : Text
event_type_captured = codes "payment.captured"

abbrev pub event_type_refunded : Text
event_type_refunded = codes "payment.refunded"

pub record Payload : Type 0 where
  pub payment_id : Text
  pub merchant_id : Text
  pub amount_minor : ℤ
  pub currency : Text
  pub occurred_at : Time

-- `json.Marshal` and `json.Unmarshal` of a payload, with the jsonb column between them.
pub record Json : Type 0 where
  pub marshal : Payload → Result Text
  pub unmarshal : Text → Result Payload
