-- ===== src/Kafka/Headers.antt =====
-- internal/infrastructure/kafka/stage.go and detours.go: the headers of a record that moves.
pub mod Lookup
pub mod Letters
use kafka_lab.Base.{
  Bool, List, [], find, if◌then◌else◌, keep, leb, length, ltb, none, not, some, suc, zero, ℕ, ◌%◌,
  ◌&&◌, ◌++◌, ◌+◌, ◌-◌, ◌/◌, ◌==◌, ◌||◌, ◌∷◌,
}
use kafka_lab.Base.Text.{Text, codes, decode_rune, has_prefix, text_eq}
use kafka_lab.Base.Time.{Time, to_utc}
use kafka_lab.Base.Errors.{Error}
use kafka_lab.Kafka.Stage.{Class, Header, KafkaRecord}

abbrev pub header_event_id : Text
header_event_id = codes "event_id"

abbrev pub header_event_type : Text
header_event_type = codes "event_type"

abbrev pub header_retry_attempt : Text
header_retry_attempt = codes "retry_attempt"

abbrev pub header_retry_origin_topic : Text
header_retry_origin_topic = codes "retry_origin_topic"

abbrev pub header_retry_origin_partition : Text
header_retry_origin_partition = codes "retry_origin_partition"

abbrev pub header_retry_origin_offset : Text
header_retry_origin_offset = codes "retry_origin_offset"

abbrev pub header_retry_first_failed_at : Text
header_retry_first_failed_at = codes "retry_first_failed_at"

abbrev pub header_dead_letter_class : Text
header_dead_letter_class = codes "dlq_class"

abbrev pub header_dead_letter_reason : Text
header_dead_letter_reason = codes "dlq_reason"

abbrev pub header_dead_letter_origin_topic : Text
header_dead_letter_origin_topic = codes "dlq_origin_topic"

abbrev pub header_dead_letter_origin_partition : Text
header_dead_letter_origin_partition = codes "dlq_origin_partition"

abbrev pub header_dead_letter_origin_offset : Text
header_dead_letter_origin_offset = codes "dlq_origin_offset"

abbrev pub header_dead_letter_archived_at : Text
header_dead_letter_archived_at = codes "dlq_archived_at"

abbrev pub header_dead_letter_trace_id : Text
header_dead_letter_trace_id = codes "dlq_trace_id"

abbrev pub header_dead_letter_prefix : Text
header_dead_letter_prefix = codes "dlq_"

-- `slices.DeleteFunc` on a clone.
abbrev pub delete_func : (Header → Bool) → List Header → List Header
delete_func drop headers = keep (λ h. not (drop h)) headers

unfoldable pub with_header : List Header → Text → Text → List Header
with_header headers key value =
    delete_func (λ h. text_eq h.key key) headers ++ (record { key = key; value = value } ∷ [])

unfoldable pub header_value : List Header → Text → Text
header_value headers key = elim (find (λ (h : Header). text_eq h.key key) headers) [
  | none ↦ []
  | some h ↦ h.value
]

-- `strconv.Itoa` of a number that is not negative: the digits in front of those already written.
unfoldable pub itoa_from : ℕ → ℕ → Text → Text
itoa_from zero n digits = digits
itoa_from (suc fuel) n digits =
    let more = itoa_from fuel (n / 10) ((n % 10 + b'0') ∷ digits) in
    if ltb n 10 then (n + b'0') ∷ digits else more

-- A number has fewer digits than its successor counts.
unfoldable pub itoa : ℕ → Text
unfolding itoa_from
itoa n = itoa_from (suc n) n []

-- `Time.Format(time.RFC3339)` and `error.Error()`.
pub record Printing : Type 0 where
  pub rfc3339 : Time → Text
  pub describe : Error → Text

abbrev pub reason_limit : ℕ
reason_limit = 1024

-- `strings.ToValidUTF8 s ""`; the number says how many bytes belong to a rune that is kept.
unfoldable pub to_valid_utf8 : ℕ → Text → Text
unfolding decode_rune
to_valid_utf8 kept [] = []
to_valid_utf8 (suc k) (a ∷ s) = a ∷ to_valid_utf8 k s
to_valid_utf8 zero (a ∷ s) =
    let (r, w) = decode_rune a s in
    let dropped = to_valid_utf8 zero s in
    let taken = a ∷ to_valid_utf8 (w - 1) s in if r == 0xFFFD && w == 1 then dropped else taken

-- `s[:n]` where `n` is at most the length of `s`.
unfoldable pub take : ℕ → Text → Text
take zero s = []
take (suc n) [] = []
take (suc n) (a ∷ s) = a ∷ take n s

unfoldable pub bounded_reason : Text → Text
unfolding to_valid_utf8 take
bounded_reason text =
    if leb (length text) reason_limit then text else to_valid_utf8 zero (take reason_limit text)

module _ (p : Printing) where
  unfoldable pub retry_headers : KafkaRecord → ℕ → Time → List Header
  unfolding with_header itoa
  retry_headers r attempt failed_at =
      let headers = with_header r.headers header_retry_attempt (itoa attempt) in
      if ltb 1 attempt
      then headers
      else with_header
          (with_header
            (with_header (with_header headers header_retry_origin_topic r.topic)
              header_retry_origin_partition (itoa r.partition))
            header_retry_origin_offset (itoa r.offset))
          header_retry_first_failed_at (p.rfc3339 (to_utc failed_at))

  unfoldable pub dead_letter_headers : KafkaRecord → Error → Class → Text → Time → List Header
  unfolding with_header bounded_reason itoa
  dead_letter_headers r reason class trace_id archived_at =
      let h1 = with_header r.headers header_dead_letter_class class in
      let h2 = with_header h1 header_dead_letter_reason (bounded_reason (p.describe reason)) in
      let h3 = with_header h2 header_dead_letter_origin_topic r.topic in
      let h4 = with_header h3 header_dead_letter_origin_partition (itoa r.partition) in
      let h5 = with_header h4 header_dead_letter_origin_offset (itoa r.offset) in
      let h6 = with_header h5 header_dead_letter_archived_at (p.rfc3339 (to_utc archived_at)) in
      with_header h6 header_dead_letter_trace_id trace_id

-- The headers that a replay drops.
abbrev pub is_replay_dropped : Header → Bool
is_replay_dropped h =
    text_eq h.key header_retry_attempt || has_prefix h.key header_dead_letter_prefix

unfoldable pub replay_headers : KafkaRecord → List Header
replay_headers r =
    delete_func is_replay_dropped r.headers
    ++ (record { key = header_retry_attempt; value = codes "1" } ∷ [])
