-- ===== src/UseCases/RecordMovement/Outcome.antt =====
-- What one delivery of an event comes to (internal/application/merchants/record_movement.go).
use mathlib.Core.Path.{subst}
use kafka_lab.Base.{
  Bool, Bool-cases, Option, false, if◌then◌else◌, inl, inr, none, refl, some, true, ◌∷◌, ◌≡◌, ◌⊎◌,
}
use kafka_lab.Base.Int.{ltb_ℤ, ◌+ℤ◌}
use kafka_lab.Base.Time.{Time, to_utc}
use kafka_lab.Base.Errors.{Error, Result, commit_unknown, err, is, ok}
use kafka_lab.Merchant.{Entry}
use kafka_lab.Retention.{can_be_deduplicated}
use kafka_lab.Database.{
  Action, Context, Database, add_to_total, bind, bound_lock_wait, claim_event, exec, pure,
}
use kafka_lab.Database.Transaction.{IsHonest, Session, inside_of, merchant_terms}
use kafka_lab.Database.Settlement.{Settled, within_tx-Settled}
use kafka_lab.Database.Inbox.{claim, insert_inbox, insert_inbox-new, insert_inbox-old, is_claimed}
use kafka_lab.Database.Totals.{
  Column, add, add_in, add_row, add_row-fits, add_row-over, add_to, max_bigint, sum_columns, sum_of,
  upsert_total,
}
use kafka_lab.UseCases.RecordMovement.Raising.{Raises, sum_columns-Raises}
use kafka_lab.UseCases.Movement.{PaymentEvent, movement_of}
use kafka_lab.UseCases.RecordMovement.{count_in, count_once, record_entry, record_event}

-- The tables after `entry` was counted into the column of its kind.
abbrev pub counted_at : Entry → Column → Time → Database → Database
counted_at entry col at db = record db {
  inbox = record { event_id = entry.event_id; consumed_at = to_utc at } ∷ db.inbox;
  totals =
      upsert_total entry.merchant.value entry.amount.currency.code col entry.amount.minor
        (to_utc at) db.totals;
}

-- `db'` is `db` with the claim and the sum of a new event, and nothing else.
abbrev pub Counts : Entry → Time → Database → Database → Type 0
Counts entry at db db' =
    (is_claimed entry.event_id db.inbox ≡ false)
    × ((col : Column) × Raises entry.kind col × (db' ≡ counted_at entry col at db))

-- What the work inside the transaction has done, by its result.
abbrev pub Worked : Entry → Time → Database → Result Bool × Database → Type 0
Worked entry at db (ok true, db') = Counts entry at db db'
Worked entry at db (ok false, db') = (db' ≡ db) × (is_claimed entry.event_id db.inbox ≡ true)
Worked entry at db (err e, db') = Unit {0}

-- The tables between the claim and the sum.
abbrev claimed_at : Entry → Time → Database → Database
claimed_at entry at db = record db {
  inbox = record { event_id = entry.event_id; consumed_at = to_utc at } ∷ db.inbox;
}

module _ (entry : Entry) (at : Time) (db : Database) where
  add_row-Worked :
      (col : Column)
      → is_claimed entry.event_id db.inbox ≡ false
      → Raises entry.kind col
      → Worked entry at db (
          bind
            (add_row entry.merchant.value entry.amount.currency.code col entry.amount.minor
              (to_utc at))
            (λ _. pure true)
            (claimed_at entry at db))
  add_row-Worked col new known =
      elim (Bool-cases (
        ltb_ℤ max_bigint (
          sum_of entry.merchant.value entry.amount.currency.code col db.totals
          +ℤ entry.amount.minor))) [
            | inl over ↦ rw (add_row-over _ _ col _ (to_utc at) (claimed_at entry at db) over) tt
            | inr fits ↦
                rw (add_row-fits _ _ col _ (to_utc at) (claimed_at entry at db) fits)
                  (new, (col, known, refl))
          ]

  exec-Worked :
      (f : Option Error) (said : Error → Error) (act : Action (Unit {0}))
      → Worked entry at db (bind act (λ _. pure true) (claimed_at entry at db))
      → Worked entry at db (bind (exec f said act) (λ _. pure true) (claimed_at entry at db))
  exec-Worked none said act h = h
  exec-Worked (some e) said act h = tt

  add-Worked :
      (ctx : Context) (known : Option Column)
      → is_claimed entry.event_id db.inbox ≡ false
      → sum_columns entry.kind ≡ known
      → Worked entry at db
          (bind (add_to ctx entry at known) (λ _. pure true) (claimed_at entry at db))
  unfolding add_to add_in
  add-Worked ctx none new e = tt
  add-Worked ctx (some col) new e = exec-Worked (ctx.fault bound_lock_wait) _ _ (
      exec-Worked (ctx.fault add_to_total) _ _
        (add_row-Worked col new (sum_columns-Raises entry.kind col e)))

  claim-Worked :
      (ctx : Context) (f : Option Error) (said : Error → Error)
      → ctx.inside ≡ true
      → Worked entry at db (
          bind
            (exec f said (insert_inbox entry.event_id (to_utc at)))
            (λ first. if first then bind (add ctx entry at) (λ _. pure true) else pure false)
            db)
  unfolding add
  claim-Worked ctx (some e) said inside = tt
  claim-Worked ctx none said inside = elim (Bool-cases (is_claimed entry.event_id db.inbox)) [
    | inl old ↦ rw (insert_inbox-old entry.event_id (to_utc at) db old) (refl, old)
    | inr new ↦
        rw (insert_inbox-new entry.event_id (to_utc at) db new)
          (rw inside (add-Worked ctx (sum_columns entry.kind) new refl))
  ]

  -- The work of the transaction: what is left of it when it ends with no error.
  count_in-Worked : (s : Session) → Worked entry at db (count_in entry at (inside_of s) db)
  unfolding count_in claim
  count_in-Worked s = claim-Worked (inside_of s) (s.fault claim_event) _ refl

-- What a delivery at `at` that found `db` came to, by its answer.
abbrev pub Delivered : PaymentEvent → Time → Database → Result Bool × Database → Type 0
Delivered event at db (ok true, db') =
    (entry : Entry) × (movement_of event ≡ ok entry)
    × (can_be_deduplicated event.occurred_at at ≡ true)
    × Counts entry at db db'
Delivered event at db (ok false, db') =
    (db' ≡ db)
    × ((entry : Entry) × (movement_of event ≡ ok entry)
        × (is_claimed entry.event_id db.inbox ≡ true))
Delivered event at db (err e, db') =
    (db' ≡ db)
    ⊎ ((is e commit_unknown ≡ true)
        × ((entry : Entry) × (movement_of event ≡ ok entry)
            × (can_be_deduplicated event.occurred_at at ≡ true)
            × Counts entry at db db'))

Settled-Delivered :
    (event : PaymentEvent) (at : Time) (db : Database) (entry : Entry)
    (work final : Result Bool × Database)
    → movement_of event ≡ ok entry
    → can_be_deduplicated event.occurred_at at ≡ true
    → Worked entry at db work
    → Settled work db final
    → Delivered event at db final
Settled-Delivered event at db entry work (ok true, db') m y w h =
    (entry, m, y, subst (Worked entry at db) h w)
Settled-Delivered event at db entry work (ok false, db') m y w h =
    let (same, old) = subst (Worked entry at db) h w in (same, (entry, m, old))
Settled-Delivered event at db entry work (err e, db') m y w (inl same) = inl same
Settled-Delivered event at db entry work (err e, db') m y w (inr (u, (true, h))) =
    inr (u, (entry, m, y, subst (Worked entry at db) h w))
Settled-Delivered event at db entry work (err e, db') m y w (inr (u, (false, h))) =
    inl (subst (Worked entry at db) h w).0

count_once-Settled :
    (s : Session) (entry : Entry) (at : Time) (db : Database)
    → IsHonest s
    → Settled (count_in entry at (inside_of s) db) db (count_once s entry at db)
unfolding count_once
count_once-Settled s entry at db h = within_tx-Settled merchant_terms s (count_in entry at) db h

record_entry-Delivered :
    (s : Session) (event : PaymentEvent) (at : Time) (db : Database) (made : Result Entry)
    → movement_of event ≡ made
    → IsHonest s
    → Delivered event at db (record_entry s event at made db)
unfolding record_entry
record_entry-Delivered s event at db (err e) m h = inl refl
record_entry-Delivered s event at db (ok entry) m h =
    elim (Bool-cases (can_be_deduplicated event.occurred_at at)) [
      | inl young ↦ rw young (
          Settled-Delivered event at db entry (count_in entry at (inside_of s) db)
            (count_once s entry at db) m young (count_in-Worked entry at db s)
            (count_once-Settled s entry at db h))
      | inr old ↦ rw old (inl refl)
    ]

-- With an honest server every delivery is all or nothing. It answers `true` exactly when it has
-- claimed the new event and raised the sum of its merchant, currency and kind, with both in the
-- tables and nothing else changed: the authorised sum for an authorisation, the captured one for a
-- capture, the refunded one for a refund. It answers `false` when
-- the event was claimed before, and then nothing has changed; and with an error nothing has
-- changed, unless the error says that the outcome of the commit is unknown.
pub record_event-Delivered :
    (s : Session) (event : PaymentEvent) (at : Time) (db : Database)
    → IsHonest s
    → Delivered event at db (record_event s event at db)
unfolding record_event
record_event-Delivered s event at db h =
    record_entry-Delivered s event at db (movement_of event) refl h
