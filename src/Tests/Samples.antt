-- ===== src/Tests/Samples.antt =====
-- A format, a schema and rows of the tests.
use kafka_lab.Base.{
  Bool, Option, [], false, if◌then◌else◌, none, refl, some, true, ℕ, ◌&&◌, ◌==◌, ◌∷◌, ◌≡◌,
}
use kafka_lab.Base.Int.{eqb_ℤ, pos}
use kafka_lab.Base.Text.{Text, codes, text_eq}
use kafka_lab.Base.Time.{Zone, other_zone, utc}
use kafka_lab.Base.Errors.{err, ok, other_error}
use kafka_lab.Outboxwire.{Json, Payload, event_type_authorized, event_type_captured}
use kafka_lab.Payment.Identity.{Uuids}
use kafka_lab.Database.{OutboxRow}
use kafka_lab.Kafka.Publisher.{Encode}
use kafka_lab.Kafka.Wire.{Message, Timestamp}
use kafka_lab.Database.Transaction.{Session}
use kafka_lab.UseCases.Relay.{Weather, Wiring}
use kafka_lab.Kafka.Detours.{ProduceAnswer}
use kafka_lab.Tests.Fixtures.{message_sold, moment, stamp_of}

-- A uuid of one symbol.
abbrev pub one_symbol : Text → Option ℕ
one_symbol (n ∷ []) = some n
one_symbol _ = none

abbrev pub small_uuids : Uuids
small_uuids = record { parse = one_symbol; show = λ n. n ∷ []; parse-show = λ n. refl }

-- JSON and messages that know one payload.
abbrev pub payload_sold : Payload
payload_sold = record {
  payment_id = 1 ∷ [];
  merchant_id = codes "m-42";
  amount_minor = pos 1999;
  currency = codes "EUR";
  occurred_at = moment 1000;
}

abbrev pub is_utc : Zone → Bool
is_utc utc = true
is_utc (other_zone n) = false

pub is_utc_lem : (z : Zone) → is_utc z ≡ true → z ≡ utc
is_utc_lem utc h = refl
is_utc_lem (other_zone n) h = cc

abbrev pub is_sold : Payload → Bool
is_sold p =
    text_eq p.payment_id payload_sold.payment_id
    && text_eq p.merchant_id payload_sold.merchant_id
    && eqb_ℤ p.amount_minor payload_sold.amount_minor
    && text_eq p.currency payload_sold.currency
    && eqb_ℤ p.occurred_at.instant payload_sold.occurred_at.instant
    && is_utc p.occurred_at.zone

abbrev pub small_json : Json
small_json = record {
  marshal = λ p. if is_sold p then ok (codes "{}") else err (other_error 2 ∷ []);
  unmarshal = λ t. ok payload_sold;
}

abbrev pub index_of : Text → ℕ
index_of t =
    if text_eq t event_type_authorized then 0 else if text_eq t event_type_captured then 1 else 2

abbrev pub is_stamp_sold : Option Timestamp → Bool
is_stamp_sold none = false
is_stamp_sold (some at) = eqb_ℤ at.seconds (moment 1000).instant && eqb_ℤ at.nanos (pos 0)

abbrev pub is_message_sold : Message → Bool
is_message_sold m =
    text_eq m.payment_id message_sold.payment_id
    && text_eq m.merchant_id message_sold.merchant_id
    && eqb_ℤ m.amount_minor message_sold.amount_minor
    && text_eq m.currency message_sold.currency
    && is_stamp_sold m.occurred_at

abbrev pub small_encode : Encode
small_encode = record {
  serialize =
      λ t m. if is_message_sold m then ok (1 ∷ index_of t ∷ []) else err (other_error 3 ∷ []);
  timestamp_new = stamp_of;
}

abbrev pub waiting : ℕ → OutboxRow
waiting id = record {
  id = id;
  aggregate_id = 1 ∷ [];
  event_type = event_type_authorized;
  payload = codes "{}";
  occurred_at = moment 1000;
  published_at = none;
  trace_context = [];
}

abbrev pub small_relay : Wiring
small_relay = record {
  json = small_json;
  encode = small_encode;
  topic = codes "payments";
  batch = 2;
}

abbrev pub weather_of : Session → (ℕ → ProduceAnswer) → Weather
weather_of s answers = record {
  session = s;
  locked = λ id. id == 2;
  answers = answers;
  now = moment 1100;
}
