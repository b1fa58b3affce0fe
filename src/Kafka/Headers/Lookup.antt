-- ===== src/Kafka/Headers/Lookup.antt =====
-- What a record's headers read as after it moved (internal/infrastructure/kafka/stage.go).
use kafka_lab.Base.{
  Bool, Bool-cases, List, Option-cases, [], arith, find, find-append_none, find-append_some,
  if◌then◌else◌, inl, inr, keep, keep-append, length, ltb, none, refl, ℕ, ◌∷◌, ◌≡◌,
}
use kafka_lab.Base.Text.{Text, text_eq, text_eq_iff, text_eq_refl}
use kafka_lab.Base.Time.{Time, to_utc}
use kafka_lab.Kafka.Stage.{Header, KafkaRecord}
use kafka_lab.Kafka.Headers.{
  Printing, delete_func, header_event_id, header_retry_attempt, header_retry_first_failed_at,
  header_retry_origin_offset, header_retry_origin_partition, header_retry_origin_topic,
  header_value, itoa, retry_headers, with_header,
}

abbrev has_key : Text → Header → Bool
has_key key h = text_eq h.key key

find-delete_func :
    (key other : Text) (headers : List Header)
    → find (has_key other) (delete_func (has_key key) headers)
      ≡ (if text_eq key other then none else find (has_key other) headers)
find-delete_func key other [] = ground arith
find-delete_func key other (h ∷ headers) = ground (
  arith,
  find-delete_func key other headers,
  text_eq_iff h.key key,
  text_eq_iff h.key other,
  text_eq_iff key other,
)

-- After a header is set it reads as the new value, whatever there was, and every other header reads
-- as before.
pub header_value-with_header :
    (headers : List Header) (key value other : Text)
    → header_value (with_header headers key value) other
      ≡ (if text_eq key other then value else header_value headers other)
unfolding header_value with_header
header_value-with_header headers key value other =
    let new : Header = record { key = key; value = value } in
    let kept = delete_func (has_key key) headers in
    elim (Option-cases (find (has_key other) kept)) [
      | inl missing ↦ ground (
        arith,
        find-delete_func key other headers,
        find-append_none (has_key other) kept (new ∷ []) missing,
      )
      | inr (h, found) ↦ ground (
        arith,
        find-delete_func key other headers,
        find-append_some (has_key other) kept (new ∷ []) h found,
      )
    ]

keep-delete_func :
    (key : Text) (headers : List Header)
    → keep (has_key key) (delete_func (has_key key) headers) ≡ []
keep-delete_func key [] = refl
keep-delete_func key (h ∷ headers) = ground (arith, keep-delete_func key headers)

-- A header that was set stands in the list once, however often it stood there before.
pub count-with_header :
    (headers : List Header) (key value : Text)
    → length (keep (λ (h : Header). text_eq h.key key) (with_header headers key value)) ≡ 1
unfolding with_header
count-with_header headers key value =
    let new : Header = record { key = key; value = value } in
    ground (
      arith,
      keep-append (has_key key) (delete_func (has_key key) headers) (new ∷ []),
      keep-delete_func key headers,
      text_eq_refl key,
    )

-- A move to the next tier keeps the event id; the attempt reads as the one it is made as. On the
-- first attempt the origin is where the record was read, whatever the record claimed before; on a
-- later one the origin stays as it is.
pub header_value-retry_headers :
    (p : Printing) (r : KafkaRecord) (attempt : ℕ) (failed_at : Time)
    → let headers = retry_headers p r attempt failed_at in
      (header_value headers header_event_id ≡ header_value r.headers header_event_id)
      × (header_value headers header_retry_attempt ≡ itoa attempt)
      × (header_value headers header_retry_origin_topic
          ≡ (if ltb 1 attempt then header_value r.headers header_retry_origin_topic else r.topic))
      × (header_value headers header_retry_origin_partition ≡ (
          if ltb 1 attempt
          then header_value r.headers header_retry_origin_partition
          else itoa r.partition))
      × (header_value headers header_retry_origin_offset ≡ (
          if ltb 1 attempt
          then header_value r.headers header_retry_origin_offset
          else itoa r.offset))
      × (header_value headers header_retry_first_failed_at ≡ (
          if ltb 1 attempt
          then header_value r.headers header_retry_first_failed_at
          else p.rfc3339 (to_utc failed_at)))
unfolding retry_headers text_eq
header_value-retry_headers p r attempt failed_at = elim (Bool-cases (ltb 1 attempt)) [
  | inl later ↦ rw later (
    simp header_value-with_header,
    simp header_value-with_header,
    simp header_value-with_header,
    simp header_value-with_header,
    simp header_value-with_header,
    simp header_value-with_header,
  )
  | inr initial ↦ rw initial (
    simp header_value-with_header,
    simp header_value-with_header,
    simp header_value-with_header,
    simp header_value-with_header,
    simp header_value-with_header,
    simp header_value-with_header,
  )
]
