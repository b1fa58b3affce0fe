-- ===== src/Database/Outbox.antt =====
-- internal/infrastructure/postgres/events.go and outbox.go: the rows that announce payments, and
-- the relay's claim of them. The rows stand in the order of their ids, as they are inserted.
use kafka_lab.Base.{
  Bool, List, Option, [], any, false, if◌then◌else◌, keep, length, ltb, none, not, some, suc, true,
  zero, ℕ, ◌&&◌, ◌++◌, ◌+◌, ◌==◌, ◌||◌, ◌∷◌,
}
use kafka_lab.Base.Text.{Text}
use kafka_lab.Base.Time.{Time, to_utc}
use kafka_lab.Base.Errors.{
  Error, Result, claim_limit, corrupt, join, ok, outbox_storage, outside_transaction,
  payment_storage, wrap, ◌>>=◌,
}
use kafka_lab.Outboxwire.{
  Json, Payload, event_type_authorized, event_type_captured, event_type_refunded,
}
use kafka_lab.Payment.Identity.{Uuids, id_string}
use kafka_lab.Payment.Events.{Event, movement_of}
use kafka_lab.Payment.Aggregate.{Payment, pull_events}
use kafka_lab.Database.{
  Action, Context, OutboxRow, Trace, bind, claim_unpublished, exec, insert_outbox, lift,
  mark_published, pure, raise,
}

-- `eventType`
unfoldable pub event_type : Event → Text
event_type (Event.authorized m) = event_type_authorized
event_type (Event.captured m) = event_type_captured
event_type (Event.refunded m) = event_type_refunded

-- `outboxRow`
pub record EncodedEvent : Type 0 where
  pub aggregate_id : Text
  pub event_type : Text
  pub payload : Text
  pub occurred_at : Time

abbrev pub payload_of : Uuids → Event → Payload
payload_of u event =
    let m = movement_of event in
    record {
      payment_id = id_string u m.payment_id;
      merchant_id = m.merchant.value;
      amount_minor = m.amount.minor;
      currency = m.amount.currency.code;
      occurred_at = m.occurred_at;
    }

unfoldable pub encode_event : Uuids → Json → Event → Result EncodedEvent
encode_event u json event = do
  payload ← json.marshal (payload_of u event)
  ok (record {
    aggregate_id = id_string u (movement_of event).payment_id;
    event_type = event_type event;
    payload = payload;
    occurred_at = (movement_of event).occurred_at;
  })

-- INSERT INTO outbox …; the id is the next value of the identity column.
unfoldable pub insert_row : Trace → EncodedEvent → Action (Unit {0})
insert_row trace e db = (
  ok tt,
  record db {
    outbox =
        db.outbox
        ++ (record {
          id = db.next_id;
          aggregate_id = e.aggregate_id;
          event_type = e.event_type;
          payload = e.payload;
          occurred_at = e.occurred_at;
          published_at = none;
          trace_context = trace;
        }
            ∷ []);
    next_id = db.next_id + 1;
  },
)

-- The loop of `appendEvents` over the pulled events, from a position on.
unfoldable pub append_pulled : Uuids → Json → Context → ℕ → List Event → Action (Unit {0})
unfolding encode_event insert_row
append_pulled u json ctx i [] = pure tt
append_pulled u json ctx i (event ∷ events) =
    bind (lift (wrap (corrupt ∷ []) (encode_event u json event))) (λ row.
      bind
        (exec (ctx.fault (insert_outbox i)) (λ e. join (payment_storage ∷ []) e)
          (insert_row ctx.trace row))
        (λ _. append_pulled u json ctx (i + 1) events))

-- `appendEvents`: the payment comes back without the events that were pulled.
unfoldable pub append_events : Uuids → Json → Context → Payment → Action Payment
unfolding append_pulled pull_events
append_events u json ctx p =
    let (events, p') = pull_events p in bind (append_pulled u json ctx 0 events) (λ _. pure p')

abbrev pub max_claim : ℕ
max_claim = 1000

abbrev pub is_unpublished : OutboxRow → Bool
is_unpublished row = elim row.published_at [ none ↦ true | some _ ↦ false ]

-- `LIMIT n`
unfoldable pub take_rows : ℕ → List OutboxRow → List OutboxRow
take_rows zero rows = []
take_rows (suc n) [] = []
take_rows (suc n) (row ∷ rows) = row ∷ take_rows n rows

-- SELECT … WHERE published_at IS NULL ORDER BY id LIMIT $1 FOR UPDATE SKIP LOCKED; the test says
-- which rows another transaction holds.
unfoldable pub claimable : (ℕ → Bool) → ℕ → List OutboxRow → List OutboxRow
unfolding take_rows
claimable locked limit rows =
    take_rows limit (keep (λ row. is_unpublished row && not (locked row.id)) rows)

-- `OutboxStore.Claim`
unfoldable pub claim_batch : Context → (ℕ → Bool) → ℕ → Action (List OutboxRow)
unfolding claimable
claim_batch ctx locked limit db =
    if limit == 0 || ltb max_claim limit
    then raise (claim_limit ∷ []) db
    else if not ctx.inside
    then raise (outside_transaction ∷ []) db
    else exec (ctx.fault claim_unpublished) (λ e. join (outbox_storage ∷ []) e)
        (pure (claimable locked limit db.outbox)) db

abbrev pub has_id : List ℕ → ℕ → Bool
has_id ids i = any (λ j. j == i) ids

-- UPDATE outbox SET published_at = $2 WHERE id = ANY($1) AND published_at IS NULL
unfoldable pub mark_rows : List ℕ → Time → List OutboxRow → List OutboxRow
mark_rows ids at [] = []
mark_rows ids at (row ∷ rows) =
    (if has_id ids row.id && is_unpublished row then record row { published_at = some at } else row)
    ∷ mark_rows ids at rows

-- `OutboxStore.MarkPublished`
unfoldable pub mark_batch : Context → List ℕ → Time → Action (Unit {0})
unfolding mark_rows
mark_batch ctx [] at = pure tt
mark_batch ctx (i ∷ ids) at =
    exec (ctx.fault mark_published) (λ e. join (outbox_storage ∷ []) e)
      (λ db. (ok tt, record db { outbox = mark_rows (i ∷ ids) (to_utc at) db.outbox }))

-- `OutboxStore.Backlog`, which takes part in no transaction.
unfoldable pub backlog : Option Error → Action ℕ
backlog fault =
    exec fault (λ e. join (outbox_storage ∷ []) e)
      (λ db. (ok (length (keep is_unpublished db.outbox)), db))
