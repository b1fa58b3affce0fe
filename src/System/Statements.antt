-- ===== src/System/Statements.antt =====
-- The statements of the stores keep the tables sound.
use kafka_lab.Base.{
  All, All-append, All-imp, Bool-cases, List, Option, [], any, any-append, arith, false, inl, inr,
  none, refl, ℕ, ◌&&◌, ◌++◌, ◌+◌, ◌<◌, ◌==◌, ◌∙◌, ◌∷◌, ◌≡◌, ◌≤◌,
}
use kafka_lab.Base.Text.{Text, text_eq, text_eq_sym}
use kafka_lab.Base.Time.{Time}
use kafka_lab.Outboxwire.{Json}
use kafka_lab.Payment.Identity.{Uuids, id_string}
use kafka_lab.Payment.Aggregate.{Payment}
use kafka_lab.Database.{Database, OutboxRow, PaymentRow, Trace}
use kafka_lab.Database.Outbox.{EncodedEvent, insert_row}
use kafka_lab.Database.Payments.{
  insert_row_of, nullable_time, row_of, under_key, update_rows, update_status, with_id,
}
use kafka_lab.Database.Preserves.{Preserves}
use kafka_lab.Kafka.Detours.{Produced}
use kafka_lab.UseCases.Relay.{Wiring}
use kafka_lab.UseCases.Relay.Announced.{IsAbove}
use kafka_lab.System.Sound.{AreDistinctKeys, IsSound}

IsAbove-append :
    (n : ℕ) (rows : List OutboxRow) (last : OutboxRow)
    → n ≤ last.id
    → IsAbove n rows
    → All (λ row. row.id < last.id) rows
    → IsAbove n (rows ++ (last ∷ []))
IsAbove-append n [] last low above below = (low, tt)
IsAbove-append n (row ∷ rows) last low above below =
    (above.0, IsAbove-append (row.id + 1) rows last (omega arith) above.1 below.1)

All-below_next :
    (n : ℕ) (rows : List OutboxRow)
    → All (λ row. row.id < n) rows
    → All (λ row. row.id < n + 1) rows
All-below_next n rows = All-imp _ _ rows (λ row h. omega arith)

key-apart :
    (row last : PaymentRow)
    → under_key last.merchant_id last.idempotency_key row ≡ false
    → under_key row.merchant_id row.idempotency_key last ≡ false
key-apart row last h = ground (
  arith,
  text_eq_sym row.merchant_id last.merchant_id,
  text_eq_sym row.idempotency_key last.idempotency_key,
)

AreDistinctKeys-append :
    (rows : List PaymentRow) (last : PaymentRow)
    → AreDistinctKeys rows
    → any (under_key last.merchant_id last.idempotency_key) rows ≡ false
    → AreDistinctKeys (rows ++ (last ∷ []))
AreDistinctKeys-append [] last h new = (refl, tt)
AreDistinctKeys-append (row ∷ rows) last h new = (
  ground (
    arith,
    any-append (under_key row.merchant_id row.idempotency_key) rows (last ∷ []),
    key-apart row last,
  ),
  AreDistinctKeys-append rows last h.1 (ground arith),
)

module _ (r : Wiring) (log : List Produced) where
  abbrev pub Sound : Database → Type 0
  Sound db = IsSound r db log

  pub insert_row-Preserves :
      (trace : Trace) (e : EncodedEvent) → Preserves Sound (insert_row trace e)
  unfolding insert_row
  insert_row-Preserves trace e db h =
      let new : OutboxRow = record {
        id = db.next_id;
        aggregate_id = e.aggregate_id;
        event_type = e.event_type;
        payload = e.payload;
        occurred_at = e.occurred_at;
        published_at = none;
        trace_context = trace;
      } in
      record {
        announces = record {
          ids = IsAbove-append 0 db.outbox new (omega arith) h.announces.ids h.below;
          announced =
              All-append _ db.outbox (new ∷ []) h.announces.announced ((λ published. cc), tt);
        };
        below =
            All-append _ db.outbox (new ∷ []) (All-below_next db.next_id db.outbox h.below)
              (omega arith, tt);
        keys = h.keys;
      }

  pub insert_row_of-Preserves :
      (u : Uuids) (json : Json) (p : Payment) (status key : Text)
      → Preserves Sound (insert_row_of u json p status key)
  unfolding insert_row_of
  insert_row_of-Preserves u json p status key db h =
      elim (Bool-cases (any (under_key p.merchant.value key) db.payments)) [
        | inl taken ↦ rw taken h
        | inr new ↦ elim (Bool-cases (any (λ row. text_eq row.id (id_string u p.id)) db.payments)) [
          | inl clash ↦ rw (new, clash) h
          | inr fresh ↦
              rw (new, fresh)
                (record {
                  announces = record { ids = h.announces.ids; announced = h.announces.announced };
                  below = h.below;
                  keys = AreDistinctKeys-append db.payments (row_of u json p status key) h.keys new;
                })
        ]
      ]

  any-update_rows :
      (u : Uuids) (json : Json) (id m status : Text) (c f : Option Time)
      (previous merchant key : Text) (rows : List PaymentRow)
      → any (under_key merchant key) (update_rows u json id m status c f previous rows).0
        ≡ any (under_key merchant key) rows
  unfolding update_rows
  any-update_rows u json id m status c f previous merchant key [] = refl
  any-update_rows u json id m status c f previous merchant key (row ∷ rows) =
      ground (arith, any-update_rows u json id m status c f previous merchant key rows)

  update_rows-AreDistinctKeys :
      (u : Uuids) (json : Json) (id m status : Text) (c f : Option Time) (previous : Text)
      (rows : List PaymentRow)
      → AreDistinctKeys rows
      → AreDistinctKeys (update_rows u json id m status c f previous rows).0
  unfolding update_rows
  update_rows-AreDistinctKeys u json id m status c f previous [] h = tt
  update_rows-AreDistinctKeys u json id m status c f previous (row ∷ rows) h =
      let kept =
        any-update_rows u json id m status c f previous row.merchant_id row.idempotency_key rows in
      let rest = update_rows-AreDistinctKeys u json id m status c f previous rows h.1 in
      elim (Bool-cases (with_id id m row && text_eq row.status previous)) [
        | inl e ↦ rw e (kept ∙ h.0, rest)
        | inr e ↦ rw e (kept ∙ h.0, rest)
      ]

  pub update_status-Preserves :
      (u : Uuids) (json : Json) (p : Payment) (status previous : Text)
      → Preserves Sound (update_status u json p status previous)
  unfolding update_status
  update_status-Preserves u json p status previous db h =
      let rows =
        update_rows u json (id_string u p.id) p.merchant.value status
          (nullable_time p.history.captured_at) (nullable_time p.history.refunded_at) previous
          db.payments in
      elim (Bool-cases (rows.1 == 0)) [
        | inl missed ↦ rw missed h
        | inr found ↦ rw found (record {
          announces = record { ids = h.announces.ids; announced = h.announces.announced };
          below = h.below;
          keys = update_rows-AreDistinctKeys u json _ _ _ _ _ previous db.payments h.keys;
        })
      ]
