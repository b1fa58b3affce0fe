-- ===== src/Kafka/Detours.antt =====
-- internal/infrastructure/kafka/detours.go: the ways in which a record leaves its stage without
-- being handled there, over the records that the brokers have stored.
use kafka_lab.Base.{Bool, List, Option, [], if◌then◌else◌, none, some, ℕ, ◌++◌, ◌∷◌}
use kafka_lab.Base.Text.{Text}
use kafka_lab.Base.Time.{Time}
use kafka_lab.Base.Errors.{Error, dead_letter_topic, join, retry_topic}
use kafka_lab.Kafka.Stage.{Class, Header, KafkaRecord}
use kafka_lab.Kafka.Headers.{Printing, dead_letter_headers, replay_headers, retry_headers}

-- A record as it is produced: the broker gives it its partition, offset and timestamp.
pub record Produced : Type 0 where
  pub topic : Text
  pub key : Text
  pub value : Text
  pub headers : List Header

-- The brokers' answer to `ProduceSync`: stored and acknowledged, or an error, after which the copy
-- may be stored all the same.
pub data ProduceAnswer : Type 0 where
  acked : ProduceAnswer
  unacked : Error → Bool → ProduceAnswer

-- `Detours.produce`
unfoldable pub produce : ProduceAnswer → Produced → List Produced → Option Error × List Produced
produce acked p log = (none, log ++ (p ∷ []))
produce (unacked e stored) p log = (some e, if stored then log ++ (p ∷ []) else log)

-- The error of a call, with sentinels in front of it.
abbrev pub said_with : Error → Option Error × List Produced → Option Error × List Produced
said_with s (none, log) = (none, log)
said_with s (some e, log) = (some (join s e), log)

module _ (p : Printing) where
  abbrev pub moved_record : KafkaRecord → Text → ℕ → Time → Produced
  moved_record r topic attempt now = record {
    topic = topic;
    key = r.key;
    value = r.value;
    headers = retry_headers p r attempt now;
  }

  -- `Detours.Retry`
  unfoldable pub retry :
      ProduceAnswer → KafkaRecord → Text → ℕ → Time → List Produced → Option Error × List Produced
  unfolding produce
  retry answer r topic attempt now log =
      said_with (retry_topic ∷ []) (produce answer (moved_record r topic attempt now) log)

  abbrev pub archived_record : Text → KafkaRecord → Error → Class → Text → Time → Produced
  archived_record dlq_topic r reason class trace_id now = record {
    topic = dlq_topic;
    key = r.key;
    value = r.value;
    headers = dead_letter_headers p r reason class trace_id now;
  }

  -- `Detours.DeadLetter`
  unfoldable pub dead_letter :
      ProduceAnswer
      → Text
      → KafkaRecord
      → Error
      → Class
      → Text
      → Time
      → List Produced
      → Option Error × List Produced
  unfolding produce
  dead_letter answer dlq_topic r reason class trace_id now log =
      said_with (dead_letter_topic ∷ [])
        (produce answer (archived_record dlq_topic r reason class trace_id now) log)

-- `Detours.Replay`
abbrev pub replayed_record : KafkaRecord → Text → Produced
replayed_record r topic = record {
  topic = topic;
  key = r.key;
  value = r.value;
  headers = replay_headers r;
}

unfoldable pub replay :
    ProduceAnswer → KafkaRecord → Text → List Produced → Option Error × List Produced
unfolding produce
replay answer r topic log =
    said_with (retry_topic ∷ []) (produce answer (replayed_record r topic) log)
