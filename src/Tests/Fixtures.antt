-- ===== src/Tests/Fixtures.antt =====
-- The inputs of the tests.
use kafka_lab.Base.{List, [], ap, arith, none, refl, some, true, ℕ, ◌∷◌}
use kafka_lab.Base.Int.{pos}
use kafka_lab.Base.Text.{Text, codes}
use kafka_lab.Base.Time.{Time, seconds, utc}
use kafka_lab.Base.Errors.{
  Error, Result, as_pg_error, deadline_exceeded, err, is, ok, other_error, pg_error,
}
use kafka_lab.Merchant.{kind_authorized}
use kafka_lab.Database.{Database, add_to_total}
use kafka_lab.Database.Transaction.{CommitAnswer, IsHonest, Session, committed, failed}
use kafka_lab.UseCases.Movement.{PaymentEvent}
use kafka_lab.UseCases.RecordMovement.Ledger.{Delivery}
use kafka_lab.Kafka.Stage.{KafkaRecord}
use kafka_lab.Kafka.Headers.{Printing, header_event_id}
use kafka_lab.Kafka.Wire.{Codec, Message, Timestamp}
use kafka_lab.Kafka.Detours.{acked}
use kafka_lab.Kafka.Routing.{Attempt, Consumer, World}
use kafka_lab.Kafka.Batch.{Item}
use kafka_lab.Kafka.Batch.Order.{IsFetch}

-- A moment in UTC, in seconds since the zero time.
abbrev pub moment : ℕ → Time
moment n = record { instant = seconds n; zone = utc }

abbrev pub empty_database : Database
empty_database = record { payments = []; outbox = []; inbox = []; totals = []; next_id = 1 }

-- A server on which everything goes well, one whose commit times out although it was applied, and
-- one that cannot wait for the lock of a sum.
abbrev pub calm : Session
calm = record {
  begin_fault = none;
  fault = λ s. none;
  commit_answer = committed;
  rollback_fault = none;
  trace = [];
}

abbrev pub silent : Session
silent = record calm { commit_answer = failed (deadline_exceeded ∷ []) true }

abbrev pub lock_timeout : Error
lock_timeout = pg_error (codes "ERROR") (codes "55P03") ∷ []

abbrev pub busy : Session
busy = record calm { fault = λ s. elim s [ add_to_total ↦ some lock_timeout | _ ↦ none ] }

pub calm-IsHonest : IsHonest calm
calm-IsHonest e h = cc

pub busy-IsHonest : IsHonest busy
busy-IsHonest e h = cc

abbrev pub failed_with : CommitAnswer → Error
failed_with committed = []
failed_with (failed e applied) = e

pub silent-IsHonest : IsHonest silent
unfolding is as_pg_error
silent-IsHonest e h = rw (← ap failed_with h)

abbrev pub sale : PaymentEvent
sale = record {
  kind = kind_authorized;
  event_id = codes "7";
  merchant_id = codes "m-42";
  amount_minor = pos 1999;
  currency = codes "EUR";
  occurred_at = moment 1000;
}

abbrev pub deliveries : List Delivery
deliveries =
    record { session = busy; event = sale; at = moment 2000 }
    ∷ record { session = silent; event = sale; at = moment 2001 }
    ∷ record { session = calm; event = sale; at = moment 2002 }
    ∷ record { session = calm; event = record sale { event_id = codes "8" }; at = moment 2003 }
    ∷ []

-- A timestamp whose seconds are the nanoseconds of the instant.
abbrev pub stamp_of : Time → Timestamp
stamp_of t = record { seconds = t.instant; nanos = pos 0 }

-- A codec of one byte each for the schema id and the index, and of messages that are the sale's.
abbrev pub take_byte : Text → Result (ℕ × Text)
take_byte [] = err (other_error 1 ∷ [])
take_byte (b ∷ s) = ok (b, s)

abbrev pub message_sold : Message
message_sold = record {
  payment_id = 1 ∷ [];
  merchant_id = codes "m-42";
  amount_minor = pos 1999;
  currency = codes "EUR";
  occurred_at = some (stamp_of (moment 1000));
}

abbrev pub small_codec : Codec
small_codec = record {
  decode_id = take_byte;
  decode_index = λ s n. elim (take_byte s) [ ok (b, rest) ↦ ok (pos b ∷ [], rest) | err e ↦ err e ];
  unmarshal = λ t s. ok message_sold;
  as_time = λ at. record { instant = at.seconds; zone = utc };
}

abbrev pub small_printing : Printing
small_printing = record { rfc3339 = λ t. codes "2026"; describe = λ e. codes "reason" }

abbrev pub main_consumer : Consumer
main_consumer = record {
  stage = record {
    topic = codes "payments";
    group = codes "payments-consumer";
    tier = 0;
    delay = pos 0;
    next = codes "payments-consumer.retry.5s";
  };
  dlq_topic = codes "payments.dlq";
  codec = small_codec;
  printing = small_printing;
}

abbrev pub fetched : ℕ → Text → Text → KafkaRecord
fetched offset event_id value = record {
  topic = codes "payments";
  partition = 3;
  offset = offset;
  key = codes "p-1";
  value = value;
  headers = record { key = header_event_id; value = event_id } ∷ [];
  timestamp = moment 1500;
}

abbrev pub good : KafkaRecord
good = fetched 10 (codes "7") (1 ∷ 0 ∷ [])

abbrev pub garbled : KafkaRecord
garbled = fetched 11 (codes "8") []

abbrev pub attempt_on : Session → Attempt
attempt_on s = record {
  elapsed = seconds 1;
  session = s;
  at = moment 2000;
  answer = acked;
  now = moment 2001;
  trace_id = [];
}

abbrev pub empty_world : World
empty_world = record { db = empty_database; log = [] }

-- A sale that is counted, one without a value, and one whose sum is locked.
abbrev pub partition : List Item
partition =
    (good, attempt_on calm)
    ∷ (garbled, attempt_on calm)
    ∷ (fetched 12 (codes "9") (1 ∷ 0 ∷ []), attempt_on busy)
    ∷ []

pub partition-IsFetch : IsFetch (partition ∷ [])
partition-IsFetch = (
  (((refl, omega arith), ((refl, omega arith), tt)), (((refl, omega arith), tt), (tt, tt))),
  tt,
  tt,
)
