-- ===== src/Kafka/Headers/Letters.antt =====
-- The headers of a dead letter, and of one that is replayed
-- (internal/infrastructure/kafka/stage.go and detours.go).
use kafka_lab.Base.{
  Bool, Bool-cases, List, Option-cases, [], ap, arith, find, find-append_none, find-append_some,
  if◌then◌else◌, inl, inr, none, ◌||◌, ◌∷◌, ◌≡◌,
}
use kafka_lab.Base.Text.{Text, codes, has_prefix, text_eq, text_eq_iff, text_eq_sym}
use kafka_lab.Base.Time.{Time}
use kafka_lab.Base.Errors.{Error}
use kafka_lab.Kafka.Stage.{Class, Header, KafkaRecord}
use kafka_lab.Kafka.Headers.{
  Printing, bounded_reason, dead_letter_headers, delete_func, header_dead_letter_class,
  header_dead_letter_origin_offset, header_dead_letter_origin_partition,
  header_dead_letter_origin_topic, header_dead_letter_prefix, header_dead_letter_reason,
  header_dead_letter_trace_id, header_event_id, header_retry_attempt, header_value,
  is_replay_dropped, itoa, replay_headers,
}
use kafka_lab.Kafka.Headers.Lookup.{header_value-with_header}

-- Whether a replay drops the headers of a key.
abbrev pub drops : Text → Bool
drops key = text_eq key header_retry_attempt || has_prefix key header_dead_letter_prefix

abbrev has_key : Text → Header → Bool
has_key key h = text_eq h.key key

find-dropped :
    (key : Text) (headers : List Header)
    → find (has_key key) (delete_func is_replay_dropped headers)
      ≡ (if drops key then none else find (has_key key) headers)
find-dropped key [] = ground arith
find-dropped key (h ∷ headers) = elim (Bool-cases (text_eq h.key key)) [
  | inl same ↦
      let e : h.key ≡ key = (text_eq_iff h.key key).0 same in
      ground (arith, find-dropped key headers, ap (λ k. drops k) e)
  | inr other ↦ ground (arith, find-dropped key headers)
]

-- A replayed letter is a first attempt, whatever attempt it died at; all that the dead letter topic
-- wrote is gone; and every other header, the event id among them, reads as it did.
pub header_value-replay_headers :
    (r : KafkaRecord) (key : Text)
    → header_value (replay_headers r) key ≡ (
        if text_eq header_retry_attempt key
        then codes "1"
        else if has_prefix key header_dead_letter_prefix
        then []
        else header_value r.headers key)
unfolding header_value replay_headers
header_value-replay_headers r key =
    let new : Header = record { key = header_retry_attempt; value = codes "1" } in
    let kept = delete_func is_replay_dropped r.headers in
    elim (Option-cases (find (has_key key) kept)) [
      | inl missing ↦ ground (
        arith,
        find-dropped key r.headers,
        find-append_none (has_key key) kept (new ∷ []) missing,
        text_eq_sym key header_retry_attempt,
      )
      | inr (h, found) ↦ ground (
        arith,
        find-dropped key r.headers,
        find-append_some (has_key key) kept (new ∷ []) h found,
        text_eq_sym key header_retry_attempt,
      )
    ]

-- A dead letter keeps the event id and says where it was last read, why it was archived and under
-- which class, whatever headers of these names the record came with.
pub header_value-dead_letter_headers :
    (p : Printing) (r : KafkaRecord) (reason : Error) (class : Class) (trace : Text) (now : Time)
    → let headers = dead_letter_headers p r reason class trace now in
      (header_value headers header_event_id ≡ header_value r.headers header_event_id)
      × (header_value headers header_dead_letter_class ≡ class)
      × (header_value headers header_dead_letter_reason ≡ bounded_reason (p.describe reason))
      × (header_value headers header_dead_letter_origin_topic ≡ r.topic)
      × (header_value headers header_dead_letter_origin_partition ≡ itoa r.partition)
      × (header_value headers header_dead_letter_origin_offset ≡ itoa r.offset)
      × (header_value headers header_dead_letter_trace_id ≡ trace)
unfolding dead_letter_headers text_eq
header_value-dead_letter_headers p r reason class trace now = (
  simp header_value-with_header,
  simp header_value-with_header,
  simp header_value-with_header,
  simp header_value-with_header,
  simp header_value-with_header,
  simp header_value-with_header,
  simp header_value-with_header,
)
