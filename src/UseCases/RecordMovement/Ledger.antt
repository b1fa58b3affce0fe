-- ===== src/UseCases/RecordMovement/Ledger.antt =====
-- Exactly-once counting over any sequence of deliveries, redeliveries and failures
-- (internal/application/merchants/record_movement.go with the Postgres stores).
use mathlib.Core.List.{append_assoc}
use kafka_lab.Base.{
  All, All-append, All-imp, Bool, List, [], ap, arith, false, if◌then◌else◌, inl, inr, map, none,
  some, true, ◌++◌, ◌∷◌, ◌≡◌, ◌⊎◌,
}
use kafka_lab.Base.Int.{pos, ℤ, ◌+ℤ◌}
use kafka_lab.Base.Text.{Text}
use kafka_lab.Base.Time.{Time, to_utc}
use kafka_lab.Base.Errors.{Result, err, ok}
use kafka_lab.Merchant.{Entry}
use kafka_lab.Database.{Database, InboxRow}
use kafka_lab.Database.Transaction.{IsHonest, Session}
use kafka_lab.Database.Inbox.{is_claimed}
use kafka_lab.Database.Totals.{Column, sum_columns, sum_of}
use kafka_lab.Database.Sums.{
  AreDistinctTotals, same_sum, sum_of-upsert_total, upsert_total-AreDistinctTotals,
}
use kafka_lab.UseCases.Movement.{PaymentEvent, movement_of}
use kafka_lab.UseCases.RecordMovement.{record_event}
use kafka_lab.UseCases.RecordMovement.Raising.{Raises-sum_columns}
use kafka_lab.UseCases.RecordMovement.Outcome.{Counts, Delivered, record_event-Delivered}

pub record Delivery : Type 0 where
  pub session : Session
  pub event : PaymentEvent
  pub at : Time

unfoldable pub deliver : Delivery → Database → Database
deliver d db = (record_event d.session d.event d.at db).1

unfoldable pub deliver_all : List Delivery → Database → Database
deliver_all [] db = db
deliver_all (d ∷ ds) db = deliver_all ds (deliver d db)

-- Whether an entry goes into the sum of a merchant, currency and column.
abbrev pub posts : Entry → Text → Text → Column → Bool
posts entry m c col = elim (sum_columns entry.kind) [
  | none ↦ false
  | some col' ↦ same_sum entry.merchant.value entry.amount.currency.code col' m c col
]

-- The sum of the entries of a log, counted one by one.
abbrev pub sum_log : List Entry → Text → Text → Column → ℤ
sum_log [] m c col = pos 0
sum_log (entry ∷ log) m c col =
    let rest = sum_log log m c col in
    if posts entry m c col then rest +ℤ entry.amount.minor else rest

abbrev pub IsDistinct : List InboxRow → Type 0
IsDistinct [] = Unit
IsDistinct (row ∷ rows) = (is_claimed row.event_id rows ≡ false) × IsDistinct rows

abbrev pub log_ids : List Entry → List Text
log_ids log = map (λ (e : Entry). e.event_id) log

abbrev pub inbox_ids : List InboxRow → List Text
inbox_ids rows = map (λ (r : InboxRow). r.event_id) rows

-- The tables say of a log that its events are the claimed ones, each claimed once, and that every
-- sum is the sum over the log.
pub record IsLedger (log : List Entry) (db : Database) : Type 0 where
  pub claimed : log_ids log ≡ inbox_ids db.inbox
  pub distinct : IsDistinct db.inbox
  pub summed : (m c : Text) (col : Column) → sum_of m c col db.totals ≡ sum_log log m c col
  pub one_row : AreDistinctTotals db.totals

-- An entry is what the domain made of the event of one of the deliveries.
abbrev pub IsFrom : List Delivery → Entry → Type 0
IsFrom [] entry = ⊥
IsFrom (d ∷ ds) entry = (movement_of d.event ≡ ok entry) ⊎ IsFrom ds entry

pub Counts-IsLedger :
    (entry : Entry) (at : Time) (db db' : Database) (log : List Entry)
    → Counts entry at db db'
    → IsLedger log db
    → IsLedger (entry ∷ log) db'
Counts-IsLedger entry at db db' log (new, (col, raises, e)) l = rw e (record {
  claimed = ap (λ ids. entry.event_id ∷ ids) l.claimed;
  distinct = (new, l.distinct);
  summed = λ m c col'. ground (
    arith,
    Raises-sum_columns entry.kind col raises,
    sum_of-upsert_total entry.merchant.value entry.amount.currency.code col entry.amount.minor
        (to_utc at) db.totals m c col',
    l.summed m c col',
  );
  one_row =
      upsert_total-AreDistinctTotals entry.merchant.value entry.amount.currency.code col
        entry.amount.minor (to_utc at) db.totals l.one_row;
})

-- What one delivery adds to the log: at most one entry, made of its event.
deliver-IsLedger :
    (d : Delivery) (db : Database) (log : List Entry) (final : Result Bool × Database)
    → Delivered d.event d.at db final
    → IsLedger log db
    → (new : List Entry) × IsLedger (new ++ log) final.1
      × All (λ entry. movement_of d.event ≡ ok entry) new
deliver-IsLedger d db log (ok true, db') (entry, m, y, c) l =
    (entry ∷ [], Counts-IsLedger entry d.at db db' log c l, (m, tt))
deliver-IsLedger d db log (ok false, db') (same, _) l = ([], rw same l, tt)
deliver-IsLedger d db log (err e, db') (inl same) l = ([], rw same l, tt)
deliver-IsLedger d db log (err e, db') (inr (u, (entry, m, y, c))) l =
    (entry ∷ [], Counts-IsLedger entry d.at db db' log c l, (m, tt))

-- Whatever is delivered, in whatever order and as often as it may be, and whichever statements,
-- commits and rollbacks fail: if the tables stand for a log of counted events, then afterwards they
-- stand for that log with new entries in front. Each new entry is what the domain makes of an event
-- that was delivered; no event id is claimed twice, so no event is counted twice; and every sum of
-- every merchant and currency is the sum over the log.
pub deliver_all-IsLedger :
    (ds : List Delivery) (db : Database) (log : List Entry)
    → All (λ d. IsHonest d.session) ds
    → IsLedger log db
    → (new : List Entry) × IsLedger (new ++ log) (deliver_all ds db) × All (IsFrom ds) new
unfolding deliver_all deliver
deliver_all-IsLedger [] db log h l = ([], l, tt)
deliver_all-IsLedger (d ∷ ds) db log h l =
    let (new, l', from) =
      deliver-IsLedger d db log (record_event d.session d.event d.at db)
        (record_event-Delivered d.session d.event d.at db h.0) l in
    let (more, l'', from') =
      deliver_all-IsLedger ds (record_event d.session d.event d.at db).1 (new ++ log) h.1 l' in
    (
      more ++ new,
      rw append_assoc l'',
      All-append (IsFrom (d ∷ ds)) more new
          (All-imp (IsFrom ds) (IsFrom (d ∷ ds)) more (λ x h'. inr h') from')
          (All-imp (λ entry. movement_of d.event ≡ ok entry) (IsFrom (d ∷ ds)) new (λ x h'. inl h')
            from),
    )
