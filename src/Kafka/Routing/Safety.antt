-- ===== src/Kafka/Routing/Safety.antt =====
-- No record leaves its partition unless it was counted or a copy of it is stored
-- (internal/infrastructure/kafka/routing.go).
use kafka_lab.Base.{
  Bool, Bool-cases, [], ap, arith, false, inl, inr, none, refl, true, ◌++◌, ◌+◌, ◌∙◌, ◌∷◌, ◌≡◌, ◌⊎◌,
}
use kafka_lab.Base.Text.{Text, is_empty}
use kafka_lab.Base.Errors.{Error, Result, contended, err, is, ok, unprocessable}
use kafka_lab.Database.{Database}
use kafka_lab.UseCases.Movement.{PaymentEvent}
use kafka_lab.UseCases.RecordMovement.{record_event}
use kafka_lab.Kafka.Stage.{Class, KafkaRecord, class_exhausted, class_refused, class_undecodable}
use kafka_lab.Kafka.Headers.{
  bounded_reason, header_dead_letter_class, header_dead_letter_origin_offset,
  header_dead_letter_origin_partition, header_dead_letter_origin_topic, header_dead_letter_reason,
  header_dead_letter_trace_id, header_event_id, header_retry_attempt, header_value, itoa,
}
use kafka_lab.Kafka.Headers.Lookup.{header_value-retry_headers}
use kafka_lab.Kafka.Headers.Letters.{header_value-dead_letter_headers}
use kafka_lab.Kafka.Wire.{decode_event}
use kafka_lab.Kafka.Detours.{Produced, archived_record, dead_letter, moved_record, retry}
use kafka_lab.Kafka.Routing.{
  Attempt, Consumer, World, archive, handle_decoded, handle_record, move_on, route, stopping,
}

-- Why a record was archived under a class.
abbrev pub IsReason : Consumer → Attempt → KafkaRecord → World → Error → Class → Type 0
IsReason c a r w reason class =
    ((class ≡ class_undecodable) × (decode_event c.codec r ≡ err reason))
    ⊎ (((event : PaymentEvent) × (decode_event c.codec r ≡ ok event)
        × ((record_event a.session event a.at w.db).0 ≡ err reason)
        × (stopping reason ≡ false)
        × (((class ≡ class_refused) × (is reason unprocessable ≡ true))
            ⊎ ((class ≡ class_exhausted)
                × (is reason unprocessable ≡ false)
                × (is reason contended ≡ true)
                × (is_empty c.stage.next ≡ true)))))

-- A copy on another topic: with the bytes, the key and the event id of the record.
abbrev pub IsCopyOn : Text → KafkaRecord → Produced → Type 0
IsCopyOn topic r p =
    (p.topic ≡ topic)
    × (p.key ≡ r.key)
    × (p.value ≡ r.value)
    × (header_value p.headers header_event_id ≡ header_value r.headers header_event_id)

-- The next attempt, on the topic of the next tier.
abbrev pub IsMoved : Consumer → KafkaRecord → Produced → Type 0
IsMoved c r p =
    IsCopyOn c.stage.next r p
    × (header_value p.headers header_retry_attempt ≡ itoa (c.stage.tier + 1))

-- A dead letter, which says why it is one and where it came from.
abbrev pub IsArchived : Consumer → Attempt → KafkaRecord → Error → Class → Produced → Type 0
IsArchived c a r reason class p =
    IsCopyOn c.dlq_topic r p
    × (header_value p.headers header_dead_letter_class ≡ class)
    × (header_value p.headers header_dead_letter_reason
        ≡ bounded_reason (c.printing.describe reason))
    × (header_value p.headers header_dead_letter_origin_topic ≡ r.topic)
    × (header_value p.headers header_dead_letter_origin_partition ≡ itoa r.partition)
    × (header_value p.headers header_dead_letter_origin_offset ≡ itoa r.offset)
    × (header_value p.headers header_dead_letter_trace_id ≡ a.trace_id)

-- One record is stored behind the others, with this property.
abbrev pub Stores : (Produced → Type 0) → World → World → Type 0
Stores P w w' = (p : Produced) × (w'.log ≡ w.log ++ (p ∷ [])) × P p

-- What handling a record with no error has left behind: the event counted, now or before, with no
-- copy made; or a contended record stored in the next tier as its next attempt; or a dead letter
-- stored under the class of its reason.
abbrev pub Handled : Consumer → Attempt → KafkaRecord → World → World → Type 0
Handled c a r w w' =
    ((event : PaymentEvent) × (decode_event c.codec r ≡ ok event)
      × ((counted : Bool) × (record_event a.session event a.at w.db ≡ (ok counted, w'.db)))
      × (w'.log ≡ w.log))
    ⊎ (((event : PaymentEvent) × (decode_event c.codec r ≡ ok event)
          × ((e : Error) × ((record_event a.session event a.at w.db).0 ≡ err e)
              × (is e contended ≡ true))
          × (is_empty c.stage.next ≡ false)
          × Stores (IsMoved c r) w w')
        ⊎ ((reason : Error) × (class : Class) × IsReason c a r w reason class
            × Stores (IsArchived c a r reason class) w w'))

archive-none :
    (c : Consumer) (a : Attempt) (r : KafkaRecord) (reason : Error) (class : Class) (w w' : World)
    → archive c a r reason class w ≡ (none, w')
    → Stores (IsArchived c a r reason class) w w'
unfolding archive dead_letter
archive-none c a r reason class w w' h =
    let said = header_value-dead_letter_headers c.printing r reason class a.trace_id a.now in
    (
      archived_record c.printing c.dlq_topic r reason class a.trace_id a.now,
      ground arith,
      ((refl, refl, refl, said.0), said.1, said.2, said.3, said.4, said.5, said.6),
    )

module _ (c : Consumer) (a : Attempt) (r : KafkaRecord) (w w' : World) where
  retry-none :
      (reason : Error)
      → is_empty c.stage.next ≡ false
      → move_on c a r reason w ≡ (none, w')
      → Stores (IsMoved c r) w w'
  unfolding move_on retry
  retry-none reason next h =
      let said = header_value-retry_headers c.printing r (c.stage.tier + 1) a.now in
      (
        moved_record c.printing r c.stage.next (c.stage.tier + 1) a.now,
        ground arith,
        ((refl, refl, refl, said.0), said.1),
      )

  exhausted-none :
      (reason : Error)
      → is_empty c.stage.next ≡ true
      → move_on c a r reason w ≡ (none, w')
      → archive c a r reason class_exhausted w ≡ (none, w')
  unfolding move_on
  exhausted-none reason last h = ground arith

-- The answer of the use case, with the tables that it left, in the middle of handling a record.
module _ (c : Consumer) (a : Attempt) (r : KafkaRecord) (w w' : World) (event : PaymentEvent)
    (decoded : decode_event c.codec r ≡ ok event) where
  abbrev answer : Result Bool × Database
  answer = record_event a.session event a.at w.db

  moved-Handled :
      (e : Error) (db : Database)
      → record_event a.session event a.at w.db ≡ (err e, db)
      → stopping e ≡ false
      → is e unprocessable ≡ false
      → is e contended ≡ true
      → move_on c a r e (record w { db = db }) ≡ (none, w')
      → Handled c a r w w'
  moved-Handled e db q go fit busy h = elim (Bool-cases (is_empty c.stage.next)) [
    | inl last ↦ inr (
        inr (
          e,
          class_exhausted,
          inr (
            event,
            decoded,
            ap (λ (x : Result Bool × Database). x.0) q,
            go,
            inr (refl, fit, busy, last),
          ),
          archive-none c a r e class_exhausted (record w { db = db }) w'
              (exhausted-none c a r (record w { db = db }) w' e last h),
        ))
    | inr next ↦ inr (
        inl (
          event,
          decoded,
          (e, ap (λ (x : Result Bool × Database). x.0) q, busy),
          next,
          retry-none c a r (record w { db = db }) w' e next h,
        ))
  ]

  route-Handled :
      (db : Database) (result : Result Bool)
      → record_event a.session event a.at w.db ≡ (result, db)
      → route c a r (record w { db = db }) result ≡ (none, w')
      → Handled c a r w w'
  unfolding route
  route-Handled db (ok counted) q h =
      inl (event, decoded, (counted, q ∙ ground arith), ground arith)
  route-Handled db (err e) q h = elim (Bool-cases (stopping e)) [
    | inl stop ↦ ground arith
    | inr go ↦ elim (Bool-cases (is e unprocessable)) [
      | inl bad ↦ inr (
          inr (
            e,
            class_refused,
            inr (event, decoded, ap (λ (x : Result Bool × Database). x.0) q, go, inl (refl, bad)),
            archive-none c a r e class_refused (record w { db = db }) w' (ground arith),
          ))
      | inr fit ↦ elim (Bool-cases (is e contended)) [
        | inl busy ↦ moved-Handled e db q go fit busy (ground arith)
        | inr other ↦ ground arith
      ]
    ]
  ]

decoded-Handled :
    (c : Consumer) (a : Attempt) (r : KafkaRecord) (w w' : World) (made : Result PaymentEvent)
    → decode_event c.codec r ≡ made
    → handle_decoded c a r w made ≡ (none, w')
    → Handled c a r w w'
unfolding handle_decoded
decoded-Handled c a r w w' (err e) d h =
    inr (inr (e, class_undecodable, inl (refl, d), archive-none c a r e class_undecodable w w' h))
decoded-Handled c a r w w' (ok event) d h =
    route-Handled c a r w w' event d (record_event a.session event a.at w.db).1
      (record_event a.session event a.at w.db).0 refl h

-- A record that is handled with no error was counted, now or before; or it was contended, the stage
-- is not the last, and a copy of it is stored on the next tier's topic as its next attempt; or a copy
-- of it is stored on the dead letter topic, under its reason, its class and the place it came from:
-- undecodable exactly for the decoder's error, refused for an event that can never be
-- processed, exhausted for one that is contended on the last stage. Exactly one copy was stored in
-- the last two cases and none in the first; a copy has the key, the bytes and the event id of the
-- record.
pub handle_record-Handled :
    (c : Consumer) (a : Attempt) (r : KafkaRecord) (w w' : World)
    → handle_record c a r w ≡ (none, w')
    → Handled c a r w w'
unfolding handle_record
handle_record-Handled c a r w w' h = decoded-Handled c a r w w' (decode_event c.codec r) refl h
