-- ===== src/Tests/Consuming.antt =====
-- The consumer.
use kafka_lab.Base.{All, [], get_elem?, map, refl, some, ◌∷◌, ◌≡◌}
use kafka_lab.Base.Int.{◌+ℤ◌, ◌-ℤ◌}
use kafka_lab.Base.Text.{codes, has_prefix, runes, text_eq, valid_utf8}
use kafka_lab.Base.Time.{seconds}
use kafka_lab.Base.Errors.{as_pg_error, decode_failed, is, other_error}
use kafka_lab.Database.{InboxRow}
use kafka_lab.Database.Transaction.{in_context_terms, refused_by_data, rollback}
use kafka_lab.Database.Inbox.{claim}
use kafka_lab.Database.Totals.{add, sum_of, upsert_total}
use kafka_lab.UseCases.RecordMovement.{count_once, record_event}
use kafka_lab.Kafka.Stage.{
  KafkaRecord, chain, class_refused, class_undecodable, retry_tiers, until_due,
}
use kafka_lab.Kafka.Chain.{chain-at}
use kafka_lab.Kafka.Headers.{
  bounded_reason, dead_letter_headers, header_dead_letter_class, header_dead_letter_origin_offset,
  header_dead_letter_origin_partition, header_dead_letter_origin_topic, header_dead_letter_reason,
  header_dead_letter_trace_id, header_event_id, header_retry_attempt, header_retry_first_failed_at,
  header_retry_origin_offset, header_retry_origin_partition, header_retry_origin_topic,
  header_value, itoa, replay_headers, retry_headers,
}
use kafka_lab.Kafka.Headers.Lookup.{header_value-retry_headers}
use kafka_lab.Kafka.Headers.Letters.{header_value-dead_letter_headers, header_value-replay_headers}
use kafka_lab.Kafka.Wire.{decode_event}
use kafka_lab.Kafka.Detours.{Produced, archived_record, dead_letter, retry}
use kafka_lab.Kafka.Routing.{World, handle_record, move_on, stopping}
use kafka_lab.Kafka.Routing.Safety.{Handled, handle_record-Handled}
use kafka_lab.Kafka.Batch.{commit_taken, handle_batch, handle_partition, no_outcome, settle}
use kafka_lab.Kafka.Batch.Prefix.{AllHonest, TakesPrefix, handle_partition-TakesPrefix}
use kafka_lab.Kafka.Batch.Commit.{AllNotLost, poll-commits-IsKept}
use kafka_lab.Tests.Fixtures.{
  attempt_on, busy-IsHonest, calm, calm-IsHonest, empty_world, garbled, good, main_consumer, moment,
  partition, partition-IsFetch, small_printing,
}

-- All three are handled: the first is counted, the second archived, the third moved on.
partition_run :
    let (out, w) = handle_batch main_consumer (moment 2000) (partition ∷ []) empty_world in
    (map (λ (r : KafkaRecord). r.offset) out.handled ≡ 10 ∷ 11 ∷ 12 ∷ [])
    × (map (λ (p : Produced). p.topic) w.log
        ≡ codes "payments.dlq" ∷ codes "payments-consumer.retry.5s" ∷ [])
    × (map (λ (row : InboxRow). row.event_id) w.db.inbox ≡ codes "7" ∷ [])
unfolding handle_batch handle_record decode_event record_event count_once claim add sum_of
    upsert_total ◌+ℤ◌ ◌-ℤ◌ is refused_by_data as_pg_error text_eq in_context_terms rollback
    valid_utf8 runes until_due stopping move_on retry dead_letter
partition_run = (refl, refl, refl)

All-calm : All AllHonest (partition ∷ [])
All-calm = ((calm-IsHonest, (calm-IsHonest, (busy-IsHonest, tt))), tt)

poll-commits-IsKept_example :
    let (out, w) = handle_batch main_consumer (moment 2000) (partition ∷ []) empty_world in
    AllNotLost main_consumer w (settle commit_taken out).committed (partition ∷ [])
poll-commits-IsKept_example =
    poll-commits-IsKept main_consumer (moment 2000) (partition ∷ []) empty_world commit_taken
      partition-IsFetch All-calm

handle_partition-TakesPrefix_example :
    TakesPrefix main_consumer
      (moment 2000)
      partition
      no_outcome
      (handle_partition main_consumer (moment 2000) partition no_outcome empty_world).0
handle_partition-TakesPrefix_example =
    handle_partition-TakesPrefix main_consumer (moment 2000) partition empty_world [] [] All-calm.0
      tt

abbrev after_garbled : World
after_garbled = record empty_world {
  log =
      archived_record small_printing (codes "payments.dlq") garbled
        (decode_failed ∷ other_error 1 ∷ []) class_undecodable [] (moment 2001)
      ∷ [];
}

handle_record-Handled_example :
    Handled main_consumer (attempt_on calm) garbled empty_world after_garbled
unfolding handle_record decode_event dead_letter
handle_record-Handled_example =
    handle_record-Handled main_consumer (attempt_on calm) garbled empty_world after_garbled refl

chain-at_example :
    get_elem? (chain (main_consumer.stage ∷ retry_tiers)) 1
    ≡ some (record {
      topic = codes "payments-consumer.retry.5s";
      group = codes "payments-consumer.retry.5s";
      tier = 1;
      delay = seconds 5;
      next = codes "payments-consumer.retry.1m";
    })
chain-at_example = chain-at (main_consumer.stage ∷ retry_tiers) 1

header_value-retry_headers_example :
    let headers = retry_headers small_printing good 1 (moment 5) in
    (header_value headers header_event_id ≡ header_value good.headers header_event_id)
    × (header_value headers header_retry_attempt ≡ itoa 1)
    × (header_value headers header_retry_origin_topic ≡ codes "payments")
    × (header_value headers header_retry_origin_partition ≡ itoa 3)
    × (header_value headers header_retry_origin_offset ≡ itoa 10)
    × (header_value headers header_retry_first_failed_at ≡ codes "2026")
header_value-retry_headers_example = header_value-retry_headers small_printing good 1 (moment 5)

header_value-replay_headers_example :
    header_value (replay_headers good) header_event_id ≡ header_value good.headers header_event_id
unfolding text_eq has_prefix
header_value-replay_headers_example = header_value-replay_headers good header_event_id

header_value-dead_letter_headers_example :
    let headers =
      dead_letter_headers small_printing good (other_error 1 ∷ []) class_refused [] (moment 5) in
    (header_value headers header_event_id ≡ header_value good.headers header_event_id)
    × (header_value headers header_dead_letter_class ≡ class_refused)
    × (header_value headers header_dead_letter_reason ≡ bounded_reason (codes "reason"))
    × (header_value headers header_dead_letter_origin_topic ≡ codes "payments")
    × (header_value headers header_dead_letter_origin_partition ≡ itoa 3)
    × (header_value headers header_dead_letter_origin_offset ≡ itoa 10)
    × (header_value headers header_dead_letter_trace_id ≡ [])
header_value-dead_letter_headers_example =
    header_value-dead_letter_headers small_printing good (other_error 1 ∷ []) class_refused []
      (moment 5)
