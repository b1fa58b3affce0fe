-- ===== src/Kafka/Batch/Prefix.antt =====
-- What a batch hands to the commit (internal/infrastructure/kafka/consumer.go).
use mathlib.Core.Path.{subst}
use mathlib.Core.List.{append_assoc, append-nil}
use kafka_lab.Base.{
  All, All-append, All-imp, Bool, Bool-cases, List, Option, [], any, any-append, ap, arith, false,
  inl, inr, map, none, refl, some, sym, true, ℕ, ◌&&◌, ◌++◌, ◌||◌, ◌∙◌, ◌∷◌, ◌≡◌, ◌⊎◌,
}
use kafka_lab.Base.Text.{Text, text_eq, text_eq_refl}
use kafka_lab.Base.Time.{Time}
use kafka_lab.Base.Errors.{Error, ok}
use kafka_lab.Database.Inbox.{is_claimed}
use kafka_lab.Database.Transaction.{IsHonest}
use kafka_lab.UseCases.Movement.{PaymentEvent}
use kafka_lab.UseCases.RecordMovement.Outcome.{Delivered, record_event-Delivered}
use kafka_lab.Kafka.Stage.{KafkaRecord}
use kafka_lab.Kafka.Headers.{header_event_id, header_value}
use kafka_lab.Kafka.Wire.{decode_event}
use kafka_lab.Kafka.Detours.{Produced}
use kafka_lab.Kafka.Routing.{Attempt, Consumer, World, handle_record}
use kafka_lab.Kafka.Routing.Growth.{
  Delivered-claimed, Grows, Grows-refl, Grows-trans, handle_record-Grows,
}
use kafka_lab.Kafka.Routing.Safety.{Handled, IsCopyOn, handle_record-Handled}
use kafka_lab.Kafka.Batch.{
  Item, Outcome, continue_with, handle_partition, handle_partition-due, handle_partition-wait,
  hold_at, must_wait,
}

-- A stored copy on the next tier's topic or the dead letter topic, with the key, the bytes and the
-- event id of a record.
abbrev pub carries : Consumer → KafkaRecord → Produced → Bool
carries c r p =
    (text_eq p.topic c.stage.next || text_eq p.topic c.dlq_topic)
    && text_eq p.key r.key
    && text_eq p.value r.value
    && text_eq (header_value p.headers header_event_id) (header_value r.headers header_event_id)

-- The record's work is safe: its event is claimed in the inbox, or a copy of it is stored on the next
-- tier's topic or the dead letter topic.
abbrev pub IsKept : Consumer → World → KafkaRecord → Type 0
IsKept c w r =
    ((event : PaymentEvent) × (decode_event c.codec r ≡ ok event)
      × (is_claimed event.event_id w.db.inbox ≡ true))
    ⊎ (any (carries c r) w.log ≡ true)

place_known :
    (c : Consumer) (topic : Text)
    → (topic ≡ c.stage.next) ⊎ (topic ≡ c.dlq_topic)
    → (text_eq topic c.stage.next || text_eq topic c.dlq_topic) ≡ true
place_known c topic (inl e) = rw e (ground (arith, text_eq_refl c.stage.next))
place_known c topic (inr e) = rw e (ground (arith, text_eq_refl c.dlq_topic))

appended-carries :
    (c : Consumer) (r : KafkaRecord) (log log' : List Produced) (topic : Text) (p : Produced)
    → log' ≡ log ++ (p ∷ [])
    → IsCopyOn topic r p
    → (topic ≡ c.stage.next) ⊎ (topic ≡ c.dlq_topic)
    → any (carries c r) log' ≡ true
appended-carries c r log log' topic p e (t, k, v, h) there = rw e (
    rw (any-append (carries c r) log (p ∷ [])) (
      rw (t, k, v, h)
        (ground (
          arith,
          place_known c topic there,
          text_eq_refl r.key,
          text_eq_refl r.value,
          text_eq_refl (header_value r.headers header_event_id),
        ))))

Handled-IsKept :
    (c : Consumer) (a : Attempt) (r : KafkaRecord) (w w' : World)
    → IsHonest a.session
    → Handled c a r w w'
    → IsKept c w' r
Handled-IsKept c a r w w' honest (inl (event, decoded, (counted, q), same)) = inl (
  event,
  decoded,
  Delivered-claimed event a.at w.db counted w'.db (
      subst (Delivered event a.at w.db) q
        (record_event-Delivered a.session event a.at w.db honest)),
)
Handled-IsKept c a r w w' honest (inr (inl (event, decoded, why, next, (p, stored, moved)))) =
    inr (appended-carries c r w.log w'.log c.stage.next p stored moved.0 (inl refl))
Handled-IsKept c a r w w' honest (inr (inr (reason, class, why, (p, stored, archived)))) =
    inr (appended-carries c r w.log w'.log c.dlq_topic p stored archived.0 (inr refl))

pub Grows-IsKept :
    (c : Consumer) (w w' : World) (r : KafkaRecord) → Grows w w' → IsKept c w r → IsKept c w' r
Grows-IsKept c w w' r g (inl (event, decoded, claimed)) =
    inl (event, decoded, g.claims event.event_id claimed)
Grows-IsKept c w w' r g (inr stored) =
    let (extra, e) = g.copies in
    inr (rw e (rw (any-append (carries c r) w.log extra) (ground arith)))

pub All-Grows :
    (c : Consumer) (w w' : World) (rs : List KafkaRecord)
    → Grows w w'
    → All (IsKept c w) rs
    → All (IsKept c w') rs
All-Grows c w w' rs g h = All-imp (IsKept c w) (IsKept c w') rs (λ r k. Grows-IsKept c w w' r g k) h

abbrev pub records_of : List Item → List KafkaRecord
records_of items = map (λ (i : Item). i.0) items

abbrev pub AllHonest : List Item → Type 0
AllHonest items = All (λ (i : Item). IsHonest i.1.session) items

-- Where a partition stopped: at its end; at a record that has to wait, which is the one that is held;
-- or at a record whose handling failed, with its error.
abbrev pub StoppedAt : Consumer → Time → List Item → Outcome → Outcome → Type 0
StoppedAt c now [] out out' = (out'.waiting ≡ out.waiting) × (out'.failure ≡ out.failure)
StoppedAt c now ((r, a) ∷ rest) out out' =
    ((must_wait c now (r, a) ≡ true)
      × (out'.waiting ≡ hold_at r.partition r out.waiting)
      × (out'.failure ≡ out.failure))
    ⊎ ((must_wait c now (r, a) ≡ false)
        × (out'.waiting ≡ out.waiting)
        × ((w : World) × (e : Error) × ((handle_record c a r w).0 ≡ some e)
            × (out'.failure ≡ some e)))

-- What a partition adds to the batch: a first part of its records, in their order, and nothing of
-- what lies behind the record where it stopped.
abbrev pub TakesPrefix : Consumer → Time → List Item → Outcome → Outcome → Type 0
TakesPrefix c now items out out' =
    (taken : List Item) × (rest : List Item) × (items ≡ taken ++ rest)
    × (out'.handled ≡ out.handled ++ records_of taken)
    × StoppedAt c now rest out out'

-- The same, with every record of the batch kept and nothing lost on the way.
abbrev pub Goes : Consumer → Time → List Item → Outcome → World → Outcome × World → Type 0
Goes c now items out w (out', w') =
    Grows w w' × All (IsKept c w') out'.handled × TakesPrefix c now items out out'

StoppedAt-handled :
    (c : Consumer) (now : Time) (rest : List Item) (out out' : Outcome) (rs : List KafkaRecord)
    → StoppedAt c now rest (record out { handled = rs }) out'
    → StoppedAt c now rest out out'
StoppedAt-handled c now [] out out' rs h = h
StoppedAt-handled c now (item ∷ rest) out out' rs h = h

-- One more handled record in front of what the rest of the partition comes to.
taken-Goes :
    (c : Consumer) (now : Time) (r : KafkaRecord) (a : Attempt) (items : List Item) (out : Outcome)
    (w w' : World) (final : Outcome × World)
    → Grows w w'
    → Goes c now items (record out { handled = out.handled ++ (r ∷ []) }) w' final
    → Goes c now ((r, a) ∷ items) out w final
taken-Goes c now r a items out w w' (out', w'') g (g', kept, (front, rest, e, q, stopped)) = (
  Grows-trans w w' w'' g g',
  kept,
  (
    (r, a) ∷ front,
    rest,
    ap (λ (l : List Item). (r, a) ∷ l) e,
    q ∙ append_assoc out.handled (r ∷ []) (records_of front),
    StoppedAt-handled c now rest out out' (out.handled ++ (r ∷ [])) stopped,
  ),
)

-- The step of a partition at a record that need not wait, by what its handling came to.
handled-Goes :
    (c : Consumer) (now : Time) (r : KafkaRecord) (a : Attempt) (items : List Item) (out : Outcome)
    (w w' : World) (failed : Option Error)
    → handle_record c a r w ≡ (failed, w')
    → must_wait c now (r, a) ≡ false
    → IsHonest a.session
    → All (IsKept c w) out.handled
    → ((out' : Outcome)
        → All (IsKept c w') out'.handled
        → Goes c now items out' w' (handle_partition c now items out' w'))
    → Goes c now
        ((r, a) ∷ items)
        out
        w
        (continue_with (handle_partition c now items) r out w' failed)
unfolding continue_with
handled-Goes c now r a items out w w' none q due honest kept later =
    let g =
      subst (λ (x : Option Error × World). Grows w x.1) q (handle_record-Grows c a r w honest) in
    let one = Handled-IsKept c a r w w' honest (handle_record-Handled c a r w w' q) in
    taken-Goes c now r a items out w w'
      (handle_partition c now items (record out { handled = out.handled ++ (r ∷ []) }) w') g
      (later (record out { handled = out.handled ++ (r ∷ []) })
        (All-append (IsKept c w') out.handled (r ∷ []) (All-Grows c w w' out.handled g kept)
          (one, tt)))
handled-Goes c now r a items out w w' (some e) q due honest kept later =
    let g =
      subst (λ (x : Option Error × World). Grows w x.1) q (handle_record-Grows c a r w honest) in
    (
      g,
      All-Grows c w w' out.handled g kept,
      (
        [],
        (r, a) ∷ items,
        refl,
        sym (append-nil out.handled),
        inr (due, refl, (w, e, ap (λ (x : Option Error × World). x.0) q, refl)),
      ),
    )

pub partition-Goes :
    (c : Consumer) (now : Time) (items : List Item) (out : Outcome) (w : World)
    → AllHonest items
    → All (IsKept c w) out.handled
    → Goes c now items out w (handle_partition c now items out w)
partition-Goes c now [] out w honest kept =
    unfold handle_partition in
    (Grows-refl w, kept, ([], [], refl, sym (append-nil out.handled), (refl, refl)))
partition-Goes c now ((r, a) ∷ items) out w honest kept =
    elim (Bool-cases (must_wait c now (r, a))) [
      | inl wait ↦ rw (handle_partition-wait c now r a items out w wait) (
        Grows-refl w,
        kept,
        ([], (r, a) ∷ items, refl, sym (append-nil out.handled), inl (wait, refl, refl)),
      )
      | inr due ↦ rw (handle_partition-due c now r a items out w due) (
          handled-Goes c now r a items out w (handle_record c a r w).1 (handle_record c a r w).0
            refl due honest.0 kept
            (λ out' kept'.
              partition-Goes c now items out' (handle_record c a r w).1 honest.1 kept'))
    ]

-- A partition hands over a first part of its records in order and nothing behind the record where
-- it stops: that one is held because it is not due or the budget is used up, or its handling failed
-- and its error is the batch's. What was held or failed before in other partitions stays.
pub handle_partition-TakesPrefix :
    (c : Consumer) (now : Time) (items : List Item) (w : World) (before : List KafkaRecord)
    (held : List (ℕ × KafkaRecord))
    → AllHonest items
    → All (IsKept c w) before
    → let out : Outcome = record { handled = before; waiting = held; failure = none } in
      TakesPrefix c now items out (handle_partition c now items out w).0
handle_partition-TakesPrefix c now items w before held honest kept =
    (partition-Goes c now items (record { handled = before; waiting = held; failure = none }) w
      honest kept).2
