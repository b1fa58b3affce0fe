-- ===== src/Kafka/Wire.antt =====
-- internal/infrastructure/kafka/decode.go: a record's bytes as a payment event.
use kafka_lab.Base.{List, Option, [], find, get_elem?, if◌then◌else◌, none, not, some, ℕ, ◌&&◌, ◌∷◌}
use kafka_lab.Base.Int.{pos, ℤ}
use kafka_lab.Base.Text.{Text, is_empty, text_eq}
use kafka_lab.Base.Time.{Time, zero_time}
use kafka_lab.Base.Errors.{Result, decode_failed, err, not_a_payment_event, ok, wrap, ◌>>=◌}
use kafka_lab.Merchant.{Kind, kind_authorized, kind_captured, kind_refunded}
use kafka_lab.UseCases.Movement.{PaymentEvent}
use kafka_lab.Kafka.Stage.{KafkaRecord}
use kafka_lab.Outboxwire.{Payload, event_type_authorized, event_type_captured, event_type_refunded}
use kafka_lab.Kafka.Headers.{header_event_id, header_event_type, header_value}

-- `timestamppb.Timestamp`
pub record Timestamp : Type 0 where
  pub seconds : ℤ
  pub nanos : ℤ

-- The fields of the three generated messages, which all but the first are getters of
-- `movementMessage`.
pub record Message : Type 0 where
  pub payment_id : Text
  pub merchant_id : Text
  pub amount_minor : ℤ
  pub currency : Text
  pub occurred_at : Option Timestamp

-- What the decoder calls of franz-go's schema registry client and of the protobuf runtime: the
-- schema id and the message index come off the front of a value, and the rest is a message of the
-- event type at that index; `AsTime` reads a timestamp.
pub record Codec : Type 0 where
  pub decode_id : Text → Result (ℕ × Text)
  pub decode_index : Text → ℕ → Result (List ℤ × Text)
  pub unmarshal : Text → Text → Result Message
  pub as_time : Timestamp → Time

-- What the table says of a message both ways: its kind, its event type, and how it is built of a
-- payload, where `timestamppb.New` makes the timestamp. The message types themselves are told apart by
-- the event type.
pub record WireEvent : Type 0 where
  pub kind : Kind
  pub event_type : Text
  pub build : (Time → Timestamp) → Payload → Message

abbrev pub wire_events : List WireEvent
wire_events =
    record {
      kind = kind_authorized;
      event_type = event_type_authorized;
      build = λ stamp p. record {
        payment_id = p.payment_id;
        merchant_id = p.merchant_id;
        amount_minor = p.amount_minor;
        currency = p.currency;
        occurred_at = some (stamp p.occurred_at);
      };
    }
    ∷ record {
      kind = kind_captured;
      event_type = event_type_captured;
      build = λ stamp p. record {
        payment_id = p.payment_id;
        merchant_id = p.merchant_id;
        amount_minor = p.amount_minor;
        currency = p.currency;
        occurred_at = some (stamp p.occurred_at);
      };
    }
    ∷ record {
      kind = kind_refunded;
      event_type = event_type_refunded;
      build = λ stamp p. record {
        payment_id = p.payment_id;
        merchant_id = p.merchant_id;
        amount_minor = p.amount_minor;
        currency = p.currency;
        occurred_at = some (stamp p.occurred_at);
      };
    }
    ∷ []

unfoldable pub wire_event_named : Text → Option WireEvent
wire_event_named event_type = find (λ (e : WireEvent). text_eq e.event_type event_type) wire_events

-- The event at a position, if the event type of the header, where there is one, agrees.
abbrev agreed : Text → Option WireEvent → Result WireEvent
agreed event_type none = err (not_a_payment_event ∷ [])
agreed event_type (some event) =
    if not (is_empty event_type) && not (text_eq event_type event.event_type)
    then err (not_a_payment_event ∷ [])
    else ok event

unfoldable pub event_at : List ℤ → Text → Result WireEvent
event_at (pos i ∷ []) event_type = agreed event_type (get_elem? wire_events i)
event_at _ event_type = err (not_a_payment_event ∷ [])

-- `occurredAt`
abbrev pub occurred_or_zero : (Timestamp → Time) → Option Timestamp → Time
occurred_or_zero as_time none = zero_time
occurred_or_zero as_time (some at) = as_time at

module _ (c : Codec) where
  -- `unframe`: the message index and the protobuf.
  unfoldable pub unframe : Text → Result (List ℤ × Text)
  unframe value = do
    id_body ← wrap (decode_failed ∷ []) (c.decode_id value)
    wrap (decode_failed ∷ []) (c.decode_index id_body.1 1)

  unfoldable pub decode_event : KafkaRecord → Result PaymentEvent
  unfolding unframe event_at header_value
  decode_event r = do
    framed ← unframe r.value
    event ← wrap (decode_failed ∷ []) (event_at framed.0 (header_value r.headers header_event_type))
    message ← wrap (decode_failed ∷ []) (c.unmarshal event.event_type framed.1)
    ok (record {
      kind = event.kind;
      event_id = header_value r.headers header_event_id;
      merchant_id = message.merchant_id;
      amount_minor = message.amount_minor;
      currency = message.currency;
      occurred_at = occurred_or_zero c.as_time message.occurred_at;
    })
