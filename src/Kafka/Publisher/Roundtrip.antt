-- ===== src/Kafka/Publisher/Roundtrip.antt =====
-- From the domain's event to the consumer's, over the outbox and the topic (postgres/events.go,
-- kafka/publisher.go and kafka/decode.go in internal/infrastructure).
use kafka_lab.Base.{[], ap, arith, get_elem?, refl, some, sym, true, ℕ, ◌∙◌, ◌∷◌, ◌≡◌}
use kafka_lab.Base.Int.{pos}
use kafka_lab.Base.Text.{Text, text_eq, valid_utf8}
use kafka_lab.Base.Time.{Time, to_utc}
use kafka_lab.Base.Errors.{>>=-eq-ok, Error, Result, encode_failed, err, ok, wrap}
use kafka_lab.Merchant.{Kind, kind_authorized, kind_captured, kind_refunded}
use kafka_lab.Outboxwire.{Json, Payload}
use kafka_lab.Payment.Identity.{Uuids}
use kafka_lab.Payment.Events.{Event}
use kafka_lab.Database.{OutboxRow}
use kafka_lab.Database.Outbox.{EncodedEvent, encode_event, event_type, payload_of}
use kafka_lab.UseCases.Movement.{PaymentEvent}
use kafka_lab.Kafka.Stage.{KafkaRecord}
use kafka_lab.Kafka.Headers.{header_event_id, header_event_type, header_value, itoa}
use kafka_lab.Kafka.Wire.{
  Codec, Message, Timestamp, WireEvent, decode_event, event_at, unframe, wire_event_named,
  wire_events,
}
use kafka_lab.Kafka.Detours.{Produced}
use kafka_lab.Kafka.Publisher.{Encode, encode_as, encode_row, message, message_of}

-- The texts of a payload are UTF-8, as `encoding/json` needs to give them back.
abbrev pub IsReadable : Payload → Type 0
IsReadable p =
    (valid_utf8 p.payment_id ≡ true)
    × (valid_utf8 p.merchant_id ≡ true)
    × (valid_utf8 p.currency ≡ true)

-- The message that says what a payload says.
abbrev pub carried : (Time → Timestamp) → Payload → Message
carried stamp p = record {
  payment_id = p.payment_id;
  merchant_id = p.merchant_id;
  amount_minor = p.amount_minor;
  currency = p.currency;
  occurred_at = some (stamp p.occurred_at);
}

-- What the libraries document of each other: JSON reads back what it wrote, and the decoder finds
-- behind the schema's id the message's index and the message that was encoded, whichever it is; a
-- timestamp keeps the instant of a time, in UTC.
pub record Agree (json : Json) (encode : Encode) (c : Codec) : Type 0 where
  pub read_back :
      (p : Payload) (text : Text)
      → IsReadable p
      → json.marshal p ≡ ok text
      → json.unmarshal text ≡ ok p
  pub decoded :
      (i : ℕ) (e : WireEvent) (m : Message) (bytes : Text)
      → get_elem? wire_events i ≡ some e
      → encode.serialize e.event_type m ≡ ok bytes
      → (body : Text) × (unframe c bytes ≡ ok (pos i ∷ [], body))
        × (c.unmarshal e.event_type body ≡ ok m)
  pub timed : (t : Time) → c.as_time (encode.timestamp_new t) ≡ to_utc t

-- The position of an event's message in the table.
abbrev pub position_of : Event → ℕ
position_of (Event.authorized m) = 0
position_of (Event.captured m) = 1
position_of (Event.refunded m) = 2

abbrev pub kind_of : Event → Kind
kind_of (Event.authorized m) = kind_authorized
kind_of (Event.captured m) = kind_captured
kind_of (Event.refunded m) = kind_refunded

wire_event_of : Event → WireEvent
wire_event_of e = record {
  kind = kind_of e;
  event_type = event_type e;
  build = λ stamp p. carried stamp p;
}

at_position : (e : Event) → get_elem? wire_events (position_of e) ≡ some (wire_event_of e)
unfolding wire_event_of event_type
at_position (Event.authorized m) = refl
at_position (Event.captured m) = refl
at_position (Event.refunded m) = refl

named : (e : Event) → wire_event_named (event_type e) ≡ some (wire_event_of e)
unfolding wire_event_of event_type wire_event_named text_eq
named (Event.authorized m) = refl
named (Event.captured m) = refl
named (Event.refunded m) = refl

agrees : (e : Event) → event_at (pos (position_of e) ∷ []) (event_type e) ≡ ok (wire_event_of e)
unfolding wire_event_of event_type event_at text_eq
agrees (Event.authorized m) = refl
agrees (Event.captured m) = refl
agrees (Event.refunded m) = refl

-- The row that holds an encoded event.
abbrev pub Holds : OutboxRow → EncodedEvent → Type 0
Holds row e = (row.event_type ≡ e.event_type) × (row.payload ≡ e.payload)

-- What the consumer reads of an event.
abbrev pub read_as : Uuids → Event → ℕ → PaymentEvent
read_as u e id =
    let p = payload_of u e in
    record {
      kind = kind_of e;
      event_id = itoa id;
      merchant_id = p.merchant_id;
      amount_minor = p.amount_minor;
      currency = p.currency;
      occurred_at = to_utc p.occurred_at;
    }

encode_event-eq-ok :
    (u : Uuids) (json : Json) (e : Event) (enc : EncodedEvent)
    → encode_event u json e ≡ ok enc
    → (enc.event_type ≡ event_type e) × (json.marshal (payload_of u e) ≡ ok enc.payload)
unfolding encode_event
encode_event-eq-ok u json e enc h =
    let (text, marshalled, made) = >>=-eq-ok (json.marshal (payload_of u e)) _ h in
    (cc, ground arith)

wrap-eq-ok : {A : Type 0} (w : Error) (m : Result A) {a : A} → wrap w m ≡ ok a → m ≡ ok a
wrap-eq-ok w (ok x) h = h
wrap-eq-ok w (err e) h = cc

-- The bytes of a row that holds the event.
encode_row-eq-ok :
    (json : Json) (encode : Encode) (e : Event) (p : Payload) (row : OutboxRow) (bytes : Text)
    → row.event_type ≡ event_type e
    → json.unmarshal row.payload ≡ ok p
    → encode_row json encode row ≡ ok bytes
    → encode.serialize (event_type e) (carried encode.timestamp_new p) ≡ ok bytes
unfolding encode_row encode_as wire_event_of
encode_row-eq-ok json encode e p row bytes same read h =
    wrap-eq-ok (encode_failed ∷ [])
      (encode.serialize (event_type e) (carried encode.timestamp_new p))
      (rw (same, named e, read) at h)

headers_type :
    (topic : Text) (row : OutboxRow) (value : Text)
    → header_value (message_of topic row value).headers header_event_type ≡ row.event_type
unfolding header_value text_eq
headers_type topic row value = refl

headers_id :
    (topic : Text) (row : OutboxRow) (value : Text)
    → header_value (message_of topic row value).headers header_event_id ≡ itoa row.id
unfolding header_value text_eq
headers_id topic row value = refl

-- A record whose value and headers are those of an event's message is read as that event.
reads :
    (u : Uuids) (c : Codec) (e : Event) (id : ℕ) (body : Text) (topic : Text) (row : OutboxRow)
    (value : Text) (r : KafkaRecord) (stamp : Time → Timestamp)
    → row.event_type ≡ event_type e
    → r.value ≡ value
    → r.headers ≡ (message_of topic row value).headers
    → unframe c value ≡ ok (pos (position_of e) ∷ [], body)
    → c.unmarshal (event_type e) body ≡ ok (carried stamp (payload_of u e))
    → ((t : Time) → c.as_time (stamp t) ≡ to_utc t)
    → decode_event c r ≡ ok (read_as u e row.id)
unfolding decode_event wire_event_of
reads u c e id body topic row value r stamp same v hs framed read timed =
    let typed : header_value r.headers header_event_type ≡ event_type e =
      ap (λ h. header_value h header_event_type) hs ∙ headers_type topic row value ∙ same in
    let named_id : header_value r.headers header_event_id ≡ itoa row.id =
      ap (λ h. header_value h header_event_id) hs ∙ headers_id topic row value in
    rw (v, framed, typed, named_id, agrees e, read, timed (payload_of u e).occurred_at) refl

-- An event of the domain is encoded and stored as a row of the outbox, the relay makes a message of
-- the row, and a consumer fetches a record with the message's value and headers. Where the libraries
-- agree with each other and the event's texts are UTF-8, what the consumer decodes is that event: its
-- kind, merchant, amount, currency and time, in UTC, under the row's id.
pub decode_event-message :
    (u : Uuids) (json : Json) (encode : Encode) (c : Codec) (e : Event) (enc : EncodedEvent)
    (row : OutboxRow) (topic : Text) (p : Produced) (r : KafkaRecord)
    → Agree json encode c
    → IsReadable (payload_of u e)
    → encode_event u json e ≡ ok enc
    → Holds row enc
    → message json encode topic row ≡ ok p
    → (r.value ≡ p.value) × (r.headers ≡ p.headers)
    → decode_event c r ≡ ok (read_as u e row.id)
unfolding message wire_event_of
decode_event-message u json encode c e enc row topic p r laws readable encoded holds made same =
    let (typed, marshalled) = encode_event-eq-ok u json e enc encoded in
    let row_typed : row.event_type ≡ event_type e = holds.0 ∙ typed in
    let read : json.unmarshal row.payload ≡ ok (payload_of u e) =
      ap json.unmarshal holds.1 ∙ laws.read_back (payload_of u e) enc.payload readable marshalled in
    let (value, valued, built) = >>=-eq-ok (encode_row json encode row) _ made in
    let is_p : message_of topic row value ≡ p = cc in
    let (body, framed, unmarshalled) =
      laws.decoded (position_of e) (wire_event_of e) (carried encode.timestamp_new (payload_of u e))
        value (at_position e)
        (encode_row-eq-ok json encode e (payload_of u e) row value row_typed read valued) in
    reads u c e row.id body topic row value r encode.timestamp_new row_typed
      (same.0 ∙ ap (λ (q : Produced). q.value) (sym is_p))
      (same.1 ∙ ap (λ (q : Produced). q.headers) (sym is_p)) framed unmarshalled laws.timed
