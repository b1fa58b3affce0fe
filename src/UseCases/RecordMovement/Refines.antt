-- ===== src/UseCases/RecordMovement/Refines.antt =====
-- Counting events refines keeping a list of them (internal/application/merchants/record_movement.go
-- with the Postgres stores).
use mathlib.Core.Path.{subst}
use kafka_lab.Base.{Bool, List, [], any, ap, false, inl, inr, refl, sym, true, ◌||◌, ◌∙◌, ◌∷◌, ◌≡◌}
use kafka_lab.Base.Text.{Text, text_eq}
use kafka_lab.Base.Time.{Time}
use kafka_lab.Base.Errors.{Error, Result, commit_unknown, err, is, ok}
use kafka_lab.Retention.{can_be_deduplicated}
use kafka_lab.Merchant.{Entry}
use kafka_lab.Database.{Database, InboxRow}
use kafka_lab.Database.Transaction.{IsHonest, Session}
use kafka_lab.Database.Inbox.{is_claimed}
use kafka_lab.UseCases.Movement.{PaymentEvent, movement_of}
use kafka_lab.UseCases.RecordMovement.{record_event}
use kafka_lab.UseCases.RecordMovement.Outcome.{Counts, Delivered, record_event-Delivered}
use kafka_lab.UseCases.RecordMovement.Ledger.{Counts-IsLedger, IsLedger, inbox_ids, log_ids}

-- The specification: a counter is the list of the entries that it has counted, and an event is in it
-- or it is not.
abbrev pub has_counted : List Entry → Text → Bool
has_counted log event_id = any (λ (entry : Entry). text_eq entry.event_id event_id) log

-- One delivery, as the specification has it: a new entry is counted; one that is there already is
-- told as such; a refused or failed delivery changes nothing, unless it cannot know, and then it may
-- have counted a new entry all the same.
pub data Counted (event : PaymentEvent) (at : Time) (log : List Entry)
    : Result Bool → List Entry → Type 0 where
  counts_new :
      (entry : Entry)
      → movement_of event ≡ ok entry
      → can_be_deduplicated event.occurred_at at ≡ true
      → has_counted log entry.event_id ≡ false
      → Counted event at log (ok true) (entry ∷ log)
  finds_old :
      (entry : Entry)
      → movement_of event ≡ ok entry
      → has_counted log entry.event_id ≡ true
      → Counted event at log (ok false) log
  changes_nothing : (e : Error) → Counted event at log (err e) log
  cannot_know :
      (e : Error) (entry : Entry)
      → is e commit_unknown ≡ true
      → movement_of event ≡ ok entry
      → can_be_deduplicated event.occurred_at at ≡ true
      → has_counted log entry.event_id ≡ false
      → Counted event at log (err e) (entry ∷ log)

counted_ids :
    (event_id : Text) (log : List Entry)
    → has_counted log event_id ≡ any (λ id. text_eq id event_id) (log_ids log)
counted_ids event_id [] = refl
counted_ids event_id (entry ∷ log) =
    ap (λ b. text_eq entry.event_id event_id || b) (counted_ids event_id log)

claimed_ids :
    (event_id : Text) (rows : List InboxRow)
    → is_claimed event_id rows ≡ any (λ id. text_eq id event_id) (inbox_ids rows)
claimed_ids event_id [] = refl
claimed_ids event_id (row ∷ rows) =
    ap (λ b. text_eq row.event_id event_id || b) (claimed_ids event_id rows)

-- The inbox and the log agree on what was counted.
has_counted-claimed :
    (log : List Entry) (db : Database) (event_id : Text)
    → IsLedger log db
    → has_counted log event_id ≡ is_claimed event_id db.inbox
has_counted-claimed log db event_id l =
    counted_ids event_id log
    ∙ ap (λ ids. any (λ id. text_eq id event_id) ids) l.claimed
    ∙ sym (claimed_ids event_id db.inbox)

-- The specification takes a step with the same answer, to a log that the tables then stand for.
abbrev pub Refines : PaymentEvent → Time → List Entry → Result Bool × Database → Type 0
Refines event at log (answer, db') =
    (log' : List Entry) × Counted event at log answer log' × IsLedger log' db'

new_in_log :
    (log : List Entry) (entry : Entry) (at : Time) (db db' : Database)
    → IsLedger log db
    → Counts entry at db db'
    → has_counted log entry.event_id ≡ false
new_in_log log entry at db db' l c = has_counted-claimed log db entry.event_id l ∙ c.0

Delivered-Refines :
    (event : PaymentEvent) (at : Time) (log : List Entry) (db : Database)
    (final : Result Bool × Database)
    → IsLedger log db
    → Delivered event at db final
    → Refines event at log final
Delivered-Refines event at log db (ok true, db') l (entry, made, young, c) = (
  entry ∷ log,
  counts_new entry made young (new_in_log log entry at db db' l c),
  Counts-IsLedger entry at db db' log c l,
)
Delivered-Refines event at log db (ok false, db') l (same, (entry, made, old)) = (
  log,
  finds_old entry made (has_counted-claimed log db entry.event_id l ∙ old),
  subst (IsLedger log) (sym same) l,
)
Delivered-Refines event at log db (err e, db') l (inl same) =
    (log, changes_nothing e, subst (IsLedger log) (sym same) l)
Delivered-Refines event at log db (err e, db') l (inr (known, (entry, made, young, c))) = (
  entry ∷ log,
  cannot_know e entry known made young (new_in_log log entry at db db' l c),
  Counts-IsLedger entry at db db' log c l,
)

-- Counting events in the tables refines keeping a list of those counted: if the tables stand for a
-- list, then with an honest server a delivery answers what the specification allows for that list,
-- and leaves tables that stand for the list that the specification has then.
pub record_event-Refines :
    (s : Session) (event : PaymentEvent) (at : Time) (log : List Entry) (db : Database)
    → IsHonest s
    → IsLedger log db
    → Refines event at log (record_event s event at db)
record_event-Refines s event at log db honest l =
    Delivered-Refines event at log db (record_event s event at db) l
      (record_event-Delivered s event at db honest)
