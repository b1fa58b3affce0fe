-- ===== src/Kafka/Publisher.antt =====
-- internal/infrastructure/kafka/publisher.go: outbox rows as the messages on the topic.
pub mod Reading
pub mod Roundtrip
use kafka_lab.Base.{List, Option, [], none, some, ℕ, ◌+◌, ◌∷◌}
use kafka_lab.Base.Text.{Text}
use kafka_lab.Base.Time.{Time}
use kafka_lab.Base.Errors.{Error, Result, encode_failed, err, ok, publish_failed, wrap, ◌>>=◌, ◌>>◌}
use kafka_lab.Outboxwire.{Json}
use kafka_lab.Database.{OutboxRow}
use kafka_lab.Kafka.Headers.{header_event_id, header_event_type, itoa}
use kafka_lab.Kafka.Wire.{Message, Timestamp, WireEvent, wire_event_named}
use kafka_lab.Kafka.Detours.{ProduceAnswer, Produced, produce, said_with}

-- `Serde.Encode` of a message of an event type, which puts the schema's id and the message's index in
-- front of its bytes, and `timestamppb.New`.
pub record Encode : Type 0 where
  pub serialize : Text → Message → Result Text
  pub timestamp_new : Time → Timestamp

-- The event that a row's type names, by what the lookup found.
unfoldable pub encode_as : Json → Encode → OutboxRow → Option WireEvent → Result Text
encode_as json encode row none = err (encode_failed ∷ [])
encode_as json encode row (some event) = do
  payload ← wrap (encode_failed ∷ []) (json.unmarshal row.payload)
  wrap (encode_failed ∷ [])
      (encode.serialize event.event_type (event.build encode.timestamp_new payload))

-- `Publisher.encode`
unfoldable pub encode_row : Json → Encode → OutboxRow → Result Text
unfolding encode_as wire_event_named
encode_row json encode row = encode_as json encode row (wire_event_named row.event_type)

abbrev pub message_of : Text → OutboxRow → Text → Produced
message_of topic row value = record {
  topic = topic;
  key = row.aggregate_id;
  value = value;
  headers =
      record { key = header_event_id; value = itoa row.id }
      ∷ record { key = header_event_type; value = row.event_type }
      ∷ [];
}

-- `Publisher.message`
unfoldable pub message : Json → Encode → Text → OutboxRow → Result Produced
unfolding encode_row
message json encode topic row = do
  value ← encode_row json encode row
  ok (message_of topic row value)

-- The loop that makes the messages of a batch; the first row that cannot be encoded ends it.
unfoldable pub messages : Json → Encode → Text → List OutboxRow → Result (List Produced)
messages json encode topic [] = ok []
messages json encode topic (row ∷ rows) = do
  m ← message json encode topic row
  ms ← messages json encode topic rows
  ok (m ∷ ms)

-- `FirstErr`
abbrev pub first_err : Option Error → Option Error → Option Error
first_err none later = later
first_err (some e) later = some e

-- `ProduceSync` of several records: each has an answer of its own, by its position.
unfoldable pub produce_sync :
    (ℕ → ProduceAnswer) → ℕ → List Produced → List Produced → Option Error × List Produced
unfolding produce
produce_sync answers i [] log = (none, log)
produce_sync answers i (p ∷ ps) log =
    let (e, stored) = produce (answers i) p log in
    let (later, log') = produce_sync answers (i + 1) ps stored in (first_err e later, log')

abbrev pub publish_messages :
    (ℕ → ProduceAnswer) → Result (List Produced) → List Produced → Option Error × List Produced
publish_messages answers (err e) log = (some e, log)
publish_messages answers (ok ms) log =
    said_with (publish_failed ∷ []) (produce_sync answers 0 ms log)

-- `Publisher.Publish`
unfoldable pub publish :
    Json
    → Encode
    → Text
    → (ℕ → ProduceAnswer)
    → List OutboxRow
    → List Produced
    → Option Error × List Produced
unfolding messages produce_sync
publish json encode topic answers [] log = (none, log)
publish json encode topic answers (row ∷ rows) log =
    publish_messages answers (messages json encode topic (row ∷ rows)) log
