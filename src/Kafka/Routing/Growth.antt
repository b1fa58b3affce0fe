-- ===== src/Kafka/Routing/Growth.antt =====
-- Handling a record only adds: claims stay claimed and stored copies stay stored
-- (internal/infrastructure/kafka/routing.go).
use mathlib.Core.List.{append_assoc, append-nil}
use kafka_lab.Base.{
  Bool, Bool-cases, List, Option, [], ap, arith, false, inl, inr, none, refl, some, sym, true, ◌++◌,
  ◌+◌, ◌∙◌, ◌∷◌, ◌≡◌,
}
use kafka_lab.Base.Text.{Text, is_empty, text_eq_refl}
use kafka_lab.Base.Time.{Time}
use kafka_lab.Base.Errors.{
  Error, Result, Sentinel, contended, dead_letter_failed, dead_letter_topic, err, is, ok,
  retry_failed, retry_topic, unprocessable,
}
use kafka_lab.Database.{Database}
use kafka_lab.Database.Transaction.{IsHonest}
use kafka_lab.Database.Inbox.{is_claimed}
use kafka_lab.Merchant.{Entry}
use kafka_lab.UseCases.Movement.{PaymentEvent, movement_of}
use kafka_lab.UseCases.RecordMovement.{record_event}
use kafka_lab.UseCases.RecordMovement.Outcome.{Counts, Delivered, record_event-Delivered}
use kafka_lab.Kafka.Stage.{Class, KafkaRecord, class_exhausted, class_refused, class_undecodable}
use kafka_lab.Kafka.Wire.{decode_event}
use kafka_lab.Kafka.Detours.{
  ProduceAnswer, Produced, acked, archived_record, dead_letter, moved_record, produce, retry,
  said_with, unacked,
}
use kafka_lab.Kafka.Routing.{
  Attempt, Consumer, World, archive, detoured, handle_decoded, handle_record, move_on, route,
  stopping,
}

abbrev pub KeepsClaims : Database → Database → Type 0
KeepsClaims db db' = (x : Text) → is_claimed x db.inbox ≡ true → is_claimed x db'.inbox ≡ true

abbrev pub Extends : List Produced → List Produced → Type 0
Extends log log' = (extra : List Produced) × (log' ≡ log ++ extra)

pub record Grows (w w' : World) : Type 0 where
  pub claims : KeepsClaims w.db w'.db
  pub copies : Extends w.log w'.log

pub Grows-refl : (w : World) → Grows w w
Grows-refl w = record { claims = λ x h. h; copies = ([], sym (append-nil w.log)) }

pub Grows-trans : (u v w : World) → Grows u v → Grows v w → Grows u w
Grows-trans u v w g h = record {
  claims = λ x p. h.claims x (g.claims x p);
  copies =
      let (early, p) = g.copies in
      let (late, q) = h.copies in
      (early ++ late, q ∙ ap (λ (l : List Produced). l ++ late) p ∙ append_assoc u.log early late);
}

Counts-KeepsClaims :
    (entry : Entry) (at : Time) (db db' : Database) → Counts entry at db db' → KeepsClaims db db'
Counts-KeepsClaims entry at db db' (new, (col, known, e)) x h = rw e (ground arith)

-- A delivery keeps the claims there were, and one that is answered leaves its event claimed.
Delivered-KeepsClaims :
    (event : PaymentEvent) (at : Time) (db : Database) (final : Result Bool × Database)
    → Delivered event at db final
    → KeepsClaims db final.1
Delivered-KeepsClaims event at db (ok true, db') (entry, m, y, c) =
    Counts-KeepsClaims entry at db db' c
Delivered-KeepsClaims event at db (ok false, db') (same, _) = λ x h. rw same h
Delivered-KeepsClaims event at db (err e, db') (inl same) = λ x h. rw same h
Delivered-KeepsClaims event at db (err e, db') (inr (u, (entry, m, y, c))) =
    Counts-KeepsClaims entry at db db' c

movement_of-event_id :
    (event : PaymentEvent) (entry : Entry)
    → movement_of event ≡ ok entry
    → entry.event_id ≡ event.event_id
unfolding movement_of
movement_of-event_id event entry h = ground arith

pub Delivered-claimed :
    (event : PaymentEvent) (at : Time) (db : Database) (b : Bool) (db' : Database)
    → Delivered event at db (ok b, db')
    → is_claimed event.event_id db'.inbox ≡ true
Delivered-claimed event at db true db' (entry, m, y, (new, (col, known, e))) =
    rw e (rw (movement_of-event_id event entry m) (ground (arith, text_eq_refl event.event_id)))
Delivered-claimed event at db false db' (same, (entry, m, old)) =
    rw same (rw (movement_of-event_id event entry m) at old)

-- What a detour leaves: the tables alone, and the log with at most one more copy.
abbrev Detoured : World → World → Type 0
Detoured w w' = (w'.db ≡ w.db) × Extends w.log w'.log

detoured-Detoured :
    (w : World) (s : Sentinel) (end : Option Error × List Produced)
    → Extends w.log end.1
    → Detoured w (detoured w s end).1
detoured-Detoured w s (none, log) h = (refl, h)
detoured-Detoured w s (some e, log) h = (refl, h)

said_with-Extends :
    (s : Error) (log : List Produced) (end : Option Error × List Produced)
    → Extends log end.1
    → Extends log (said_with s end).1
said_with-Extends s log (none, log') h = h
said_with-Extends s log (some e, log') h = h

produce-Extends :
    (answer : ProduceAnswer) (p : Produced) (log : List Produced)
    → Extends log (produce answer p log).1
unfolding produce
produce-Extends acked p log = (p ∷ [], refl)
produce-Extends (unacked e true) p log = (p ∷ [], refl)
produce-Extends (unacked e false) p log = ([], sym (append-nil log))

module _ (c : Consumer) (a : Attempt) (r : KafkaRecord) (reason : Error) (w : World) where
  dead_letter-Extends :
      (class : Class)
      → Extends w.log
          (dead_letter c.printing a.answer c.dlq_topic r reason class a.trace_id a.now w.log).1
  unfolding dead_letter
  dead_letter-Extends class =
      let p = archived_record c.printing c.dlq_topic r reason class a.trace_id a.now in
      said_with-Extends (dead_letter_topic ∷ []) w.log (produce a.answer p w.log)
        (produce-Extends a.answer p w.log)

  retry-Extends :
      Extends w.log (retry c.printing a.answer r c.stage.next (c.stage.tier + 1) a.now w.log).1
  unfolding retry
  retry-Extends =
      let p = moved_record c.printing r c.stage.next (c.stage.tier + 1) a.now in
      said_with-Extends (retry_topic ∷ []) w.log (produce a.answer p w.log)
        (produce-Extends a.answer p w.log)

  archive-Detoured : (class : Class) → Detoured w (archive c a r reason class w).1
  unfolding archive
  archive-Detoured class =
      detoured-Detoured w dead_letter_failed
        (dead_letter c.printing a.answer c.dlq_topic r reason class a.trace_id a.now w.log)
        (dead_letter-Extends class)

  move_on-Detoured : Detoured w (move_on c a r reason w).1
  unfolding move_on
  move_on-Detoured = elim (Bool-cases (is_empty c.stage.next)) [
    | inl last ↦ rw last (archive-Detoured class_exhausted)
    | inr next ↦ rw next (
        detoured-Detoured w retry_failed
          (retry c.printing a.answer r c.stage.next (c.stage.tier + 1) a.now w.log) retry-Extends)
  ]

route-Detoured :
    (c : Consumer) (a : Attempt) (r : KafkaRecord) (w : World) (result : Result Bool)
    → Detoured w (route c a r w result).1
unfolding route
route-Detoured c a r w (ok b) = (refl, ([], sym (append-nil w.log)))
route-Detoured c a r w (err e) = elim (Bool-cases (stopping e)) [
  | inl stop ↦ rw stop (refl, ([], sym (append-nil w.log)))
  | inr go ↦ elim (Bool-cases (is e unprocessable)) [
    | inl bad ↦ rw (go, bad) (archive-Detoured c a r e w class_refused)
    | inr fit ↦ elim (Bool-cases (is e contended)) [
      | inl busy ↦ rw (go, fit, busy) (move_on-Detoured c a r e w)
      | inr other ↦ rw (go, fit, other) (refl, ([], sym (append-nil w.log)))
    ]
  ]
]

decoded-Grows :
    (c : Consumer) (a : Attempt) (r : KafkaRecord) (w : World) (made : Result PaymentEvent)
    → IsHonest a.session
    → Grows w (handle_decoded c a r w made).1
unfolding handle_decoded
decoded-Grows c a r w (err e) honest =
    let (same, more) = archive-Detoured c a r e w class_undecodable in
    record { claims = λ x h. rw same h; copies = more }
decoded-Grows c a r w (ok event) honest =
    let (result, db) = record_event a.session event a.at w.db in
    let (same, more) = route-Detoured c a r (record w { db = db }) result in
    record {
      claims = λ x h. rw same (
          Delivered-KeepsClaims event a.at w.db (record_event a.session event a.at w.db)
            (record_event-Delivered a.session event a.at w.db honest) x h);
      copies = more;
    }

-- Handling a record, with an error or without, takes away no claim and no stored copy.
pub handle_record-Grows :
    (c : Consumer) (a : Attempt) (r : KafkaRecord) (w : World)
    → IsHonest a.session
    → Grows w (handle_record c a r w).1
unfolding handle_record
handle_record-Grows c a r w honest = decoded-Grows c a r w (decode_event c.codec r) honest
