-- ===== src/System/Counting.antt =====
-- The consumer keeps the tables sound.
use kafka_lab.Base.{Bool-cases, List, Option, inl, inr, none, not, some}
use kafka_lab.Base.Int.{ltb_ℤ, ℤ, ◌+ℤ◌}
use kafka_lab.Base.Text.{Text}
use kafka_lab.Base.Time.{Time, to_utc}
use kafka_lab.Base.Errors.{Result, err, ok}
use kafka_lab.Merchant.{Entry}
use kafka_lab.Retention.{can_be_deduplicated}
use kafka_lab.Database.{
  Action, Context, Database, InboxRow, TotalRow, add_to_total, bound_lock_wait, claim_event,
}
use kafka_lab.Database.Transaction.{Session, inside_of, merchant_terms}
use kafka_lab.Database.Inbox.{claim, insert_inbox, is_claimed}
use kafka_lab.Database.Totals.{
  Column, add, add_in, add_row, add_to, max_bigint, sum_columns, sum_of,
}
use kafka_lab.Database.Preserves.{
  Preserves, bind-Preserves, exec-Preserves, if-Preserves, within_tx-Preserves,
}
use kafka_lab.UseCases.Movement.{PaymentEvent, movement_of}
use kafka_lab.UseCases.RecordMovement.{count_in, count_once, record_entry, record_event}
use kafka_lab.UseCases.Relay.{Wiring}
use kafka_lab.Kafka.Detours.{Produced}
use kafka_lab.System.Statements.{Sound}

module _ (r : Wiring) (log : List Produced) where
  abbrev Keeps : {A : Type 0} → Action A → Type 0
  Keeps = Preserves (Sound r log)

  pub inbox-Sound :
      (db : Database) (rows : List InboxRow)
      → Sound r log db
      → Sound r log (record db { inbox = rows })
  inbox-Sound db rows h = record {
    announces = record { ids = h.announces.ids; announced = h.announces.announced };
    below = h.below;
    keys = h.keys;
  }

  totals-Sound :
      (db : Database) (rows : List TotalRow)
      → Sound r log db
      → Sound r log (record db { totals = rows })
  totals-Sound db rows h = record {
    announces = record { ids = h.announces.ids; announced = h.announces.announced };
    below = h.below;
    keys = h.keys;
  }

  insert_inbox-Preserves : (event_id : Text) (at : Time) → Keeps (insert_inbox event_id at)
  unfolding insert_inbox
  insert_inbox-Preserves event_id at db h = elim (Bool-cases (is_claimed event_id db.inbox)) [
    | inl old ↦ rw old h
    | inr new ↦ rw new (inbox-Sound db _ h)
  ]

  claim-Preserves : (ctx : Context) (event_id : Text) (at : Time) → Keeps (claim ctx event_id at)
  unfolding claim
  claim-Preserves ctx event_id at =
      if-Preserves (Sound r log) (not ctx.inside) _ _ (λ db h. h)
        (exec-Preserves (Sound r log) (ctx.fault claim_event) _ (insert_inbox event_id (to_utc at))
          (insert_inbox-Preserves event_id (to_utc at)))

  add_row-Preserves :
      (m c : Text) (col : Column) (minor : ℤ) (at : Time) → Keeps (add_row m c col minor at)
  unfolding add_row
  add_row-Preserves m c col minor at db h =
      elim (Bool-cases (ltb_ℤ max_bigint (sum_of m c col db.totals +ℤ minor))) [
        | inl over ↦ rw over h
        | inr fits ↦ rw fits (totals-Sound db _ h)
      ]

  add_to-Preserves :
      (ctx : Context) (entry : Entry) (at : Time) (col : Option Column)
      → Keeps (add_to ctx entry at col)
  unfolding add_to add_in
  add_to-Preserves ctx entry at none db h = h
  add_to-Preserves ctx entry at (some col) db h =
      exec-Preserves (Sound r log) (ctx.fault bound_lock_wait) _ _
        (exec-Preserves (Sound r log) (ctx.fault add_to_total) _ _ (
          add_row-Preserves entry.merchant.value entry.amount.currency.code col entry.amount.minor
            (to_utc at)))
        db h

  add-Preserves : (ctx : Context) (entry : Entry) (at : Time) → Keeps (add ctx entry at)
  unfolding add
  add-Preserves ctx entry at =
      if-Preserves (Sound r log) (not ctx.inside) _ _ (λ db h. h)
        (add_to-Preserves ctx entry at (sum_columns entry.kind))

  count_once-Preserves : (s : Session) (entry : Entry) (at : Time) → Keeps (count_once s entry at)
  unfolding count_once count_in
  count_once-Preserves s entry at =
      within_tx-Preserves (Sound r log) merchant_terms s (count_in entry at) (
        bind-Preserves (Sound r log) (claim (inside_of s) entry.event_id at) _
          (claim-Preserves (inside_of s) entry.event_id at)
          (λ first.
            if-Preserves (Sound r log) first _ _
              (bind-Preserves (Sound r log) (add (inside_of s) entry at) _
                (add-Preserves (inside_of s) entry at) (λ _ db h. h))
              (λ db h. h)))

  recorded-Preserves :
      (s : Session) (event : PaymentEvent) (at : Time) (parsed : Result Entry)
      → Keeps (record_entry s event at parsed)
  unfolding record_entry
  recorded-Preserves s event at (err e) db h = h
  recorded-Preserves s event at (ok entry) db h =
      if-Preserves (Sound r log) (not (can_be_deduplicated event.occurred_at at)) _ _ (λ d k. k)
        (count_once-Preserves s entry at) db h

  pub record_event-Preserves :
      (s : Session) (event : PaymentEvent) (at : Time) → Keeps (record_event s event at)
  unfolding record_event
  record_event-Preserves s event at = recorded-Preserves s event at (movement_of event)
