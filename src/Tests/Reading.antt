-- ===== src/Tests/Reading.antt =====
-- An event that the publisher writes and the consumer reads.
use mathlib.Core.Path.{subst}
use kafka_lab.Base.{
  Bool, Option, [], ap, arith, false, get_elem?, if◌then◌else◌, none, refl, some, suc, sym, true,
  zero, ℕ, ◌∷◌, ◌≡◌,
}
use kafka_lab.Base.Int.{eqb_ℤ_iff, pos}
use kafka_lab.Base.Text.{Text, codes, text_eq, text_eq_iff, valid_utf8}
use kafka_lab.Base.Errors.{Error, err, ok}
use kafka_lab.Outboxwire.{Payload, event_type_authorized}
use kafka_lab.Payment.Events.{Event}
use kafka_lab.Database.Outbox.{EncodedEvent, encode_event, event_type}
use kafka_lab.Kafka.Wire.{
  Message, Timestamp, WireEvent, decode_event, unframe, wire_event_named, wire_events,
}
use kafka_lab.Kafka.Stage.{KafkaRecord}
use kafka_lab.Kafka.Detours.{Produced}
use kafka_lab.Kafka.Publisher.{encode_as, encode_row, message, message_of}
use kafka_lab.Kafka.Publisher.Roundtrip.{Agree, decode_event-message, read_as}
use kafka_lab.Tests.Fixtures.{good, message_sold, moment, small_codec}
use kafka_lab.Tests.Samples.{
  index_of, is_message_sold, is_sold, is_stamp_sold, is_utc_lem, payload_sold, small_encode,
  small_json, small_uuids, waiting,
}

is_sold_lem : (p : Payload) → is_sold p ≡ true → p ≡ payload_sold
is_sold_lem p h =
    let id = (text_eq_iff p.payment_id payload_sold.payment_id).0 (ground arith) in
    let merchant = (text_eq_iff p.merchant_id payload_sold.merchant_id).0 (ground arith) in
    let amount = (eqb_ℤ_iff p.amount_minor payload_sold.amount_minor).0 (ground arith) in
    let currency = (text_eq_iff p.currency payload_sold.currency).0 (ground arith) in
    let instant =
      (eqb_ℤ_iff p.occurred_at.instant payload_sold.occurred_at.instant).0 (ground arith) in
    let zone = is_utc_lem p.occurred_at.zone (ground arith) in
    λ i. record {
      payment_id = id i;
      merchant_id = merchant i;
      amount_minor = amount i;
      currency = currency i;
      occurred_at = record { instant = instant i; zone = zone i };
    }

is_stamp_sold_lem : (o : Option Timestamp) → is_stamp_sold o ≡ true → o ≡ message_sold.occurred_at
is_stamp_sold_lem none h = cc
is_stamp_sold_lem (some at) h =
    let seconds = (eqb_ℤ_iff at.seconds (moment 1000).instant).0 (ground arith) in
    let nanos = (eqb_ℤ_iff at.nanos (pos 0)).0 (ground arith) in
    λ i. some (record { seconds = seconds i; nanos = nanos i })

is_message_sold_lem : (m : Message) → is_message_sold m ≡ true → m ≡ message_sold
is_message_sold_lem m h =
    let id = (text_eq_iff m.payment_id message_sold.payment_id).0 (ground arith) in
    let merchant = (text_eq_iff m.merchant_id message_sold.merchant_id).0 (ground arith) in
    let amount = (eqb_ℤ_iff m.amount_minor message_sold.amount_minor).0 (ground arith) in
    let currency = (text_eq_iff m.currency message_sold.currency).0 (ground arith) in
    let at = is_stamp_sold_lem m.occurred_at (ground arith) in
    λ i. record {
      payment_id = id i;
      merchant_id = merchant i;
      amount_minor = amount i;
      currency = currency i;
      occurred_at = at i;
    }

if-eq-ok :
    (b : Bool) (t : Text) (x : Error) (bytes : Text)
    → (if b then ok t else err x) ≡ ok bytes
    → (b ≡ true) × (t ≡ bytes)
if-eq-ok true t x bytes h = (refl, cc)
if-eq-ok false t x bytes h = cc

same_index :
    (a e : WireEvent) (i : ℕ)
    → ◌≡◌ {A = Option WireEvent} (some a) (some e)
    → index_of a.event_type ≡ i
    → index_of e.event_type ≡ i
same_index a e i h q =
    let same : a ≡ e = cc in subst (λ (x : WireEvent). index_of x.event_type ≡ i) same q

indexed : (i : ℕ) (e : WireEvent) → get_elem? wire_events i ≡ some e → index_of e.event_type ≡ i
unfolding text_eq
indexed zero e h = same_index _ e 0 h refl
indexed (suc zero) e h = same_index _ e 1 h refl
indexed (suc (suc zero)) e h = same_index _ e 2 h refl
indexed (suc (suc (suc i))) e h = cc

small-decoded :
    (i : ℕ) (e : WireEvent) (m : Message) (bytes : Text)
    → get_elem? wire_events i ≡ some e
    → (is_message_sold m ≡ true) × ((1 ∷ index_of e.event_type ∷ []) ≡ bytes)
    → (body : Text) × (unframe small_codec bytes ≡ ok (pos i ∷ [], body))
      × (small_codec.unmarshal e.event_type body ≡ ok m)
unfolding unframe
small-decoded i e m bytes h (sold_here, same) =
    ([], rw (← same, indexed i e h) refl, rw (is_message_sold_lem m sold_here) refl)

small-Agree : Agree small_json small_encode small_codec
small-Agree = record {
  read_back = λ p text r h. ap ok (sym (is_sold_lem p (if-eq-ok (is_sold p) _ _ text h).0));
  decoded =
      λ i e m bytes h q. small-decoded i e m bytes h (if-eq-ok (is_message_sold m) _ _ bytes q);
  timed = λ t. refl;
}

abbrev sold : Event
sold = Event.authorized (record {
  payment_id = record { value = 1 };
  merchant = record { value = codes "m-42" };
  amount = record { minor = pos 1999; currency = record { code = codes "EUR" } };
  occurred_at = moment 1000;
})

abbrev sold_row : EncodedEvent
sold_row = record {
  aggregate_id = 1 ∷ [];
  event_type = event_type_authorized;
  payload = codes "{}";
  occurred_at = moment 1000;
}

abbrev on_topic : Produced
on_topic = message_of (codes "payments") (waiting 7) (1 ∷ 0 ∷ [])

abbrev fetched_sale : KafkaRecord
fetched_sale = record good { value = on_topic.value; headers = on_topic.headers }

decode_event-message_example :
    decode_event small_codec fetched_sale ≡ ok (read_as small_uuids sold 7)
unfolding encode_event event_type message encode_row encode_as wire_event_named text_eq valid_utf8
decode_event-message_example =
    decode_event-message small_uuids small_json small_encode small_codec sold sold_row (waiting 7)
      (codes "payments") on_topic fetched_sale small-Agree (refl, refl, refl) refl (refl, refl) refl
      (refl, refl)
