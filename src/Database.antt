-- ===== src/Database.antt =====
-- internal/infrastructure/postgres: the tables, as the migrations make them, and the statements
-- that the stores send.
pub mod Transaction
pub mod Settlement
pub mod Endings
pub mod Preserves
pub mod Sums
pub mod Inbox
pub mod Totals
pub mod Outbox
pub mod Payments
pub mod Taken
pub mod Prune
use kafka_lab.Base.{Bool, List, Option, none, some, ℕ}
use kafka_lab.Base.Int.{ℤ}
use kafka_lab.Base.Text.{Text}
use kafka_lab.Base.Time.{Time}
use kafka_lab.Base.Errors.{Error, Result, err, ok}

pub record PaymentRow : Type 0 where
  pub id : Text
  pub merchant_id : Text
  pub amount_minor : ℤ
  pub currency : Text
  pub status : Text
  pub idempotency_key : Text
  pub authorized_at : Time
  pub captured_at : Option Time
  pub refunded_at : Option Time

-- A W3C trace context; NULL is the empty list.
abbrev pub Trace : Type 0
Trace = List (Text × Text)

pub record OutboxRow : Type 0 where
  pub id : ℕ
  pub aggregate_id : Text
  pub event_type : Text
  pub payload : Text
  pub occurred_at : Time
  pub published_at : Option Time
  pub trace_context : Trace

pub record InboxRow : Type 0 where
  pub event_id : Text
  pub consumed_at : Time

pub record TotalRow : Type 0 where
  pub merchant_id : Text
  pub currency : Text
  pub authorized_minor : ℤ
  pub captured_minor : ℤ
  pub refunded_minor : ℤ
  pub updated_at : Time

-- The tables, and the next value of the outbox's identity column.
pub record Database : Type 0 where
  pub payments : List PaymentRow
  pub outbox : List OutboxRow
  pub inbox : List InboxRow
  pub totals : List TotalRow
  pub next_id : ℕ

-- The statements of the stores; an event is inserted by its position among those pending.
pub data Statement : Type 0 where
  insert_payment select_payment_by_key select_payment_for_update : Statement
  update_payment_status claim_event bound_lock_wait add_to_total read_totals : Statement
  claim_unpublished count_backlog mark_published : Statement
  insert_outbox : ℕ → Statement

-- What the context of a call says: whether it is in a transaction, which statements fail and how,
-- and the trace that it runs in.
pub record Context : Type 0 where
  pub inside : Bool
  pub fault : Statement → Option Error
  pub trace : Trace

-- A call of the database returns a value or an error, and leaves the tables behind.
abbrev pub Action : Type 0 → Type 0
Action A = Database → Result A × Database

abbrev pub pure : {A : Type 0} → A → Action A
pure a db = (ok a, db)

abbrev pub raise : {A : Type 0} → Error → Action A
raise e db = (err e, db)

abbrev pub lift : {A : Type 0} → Result A → Action A
lift r db = (r, db)

abbrev pub after : {A B : Type 0} → Result A × Database → (A → Action B) → Result B × Database
after (ok a, db) f = f a db
after (err e, db) f = (err e, db)

abbrev pub bind : {A B : Type 0} → Action A → (A → Action B) → Action B
bind m f db = after (m db) f

-- A statement that the server answers with an error, or carries out.
abbrev pub exec : {A : Type 0} → Option Error → (Error → Error) → Action A → Action A
exec none said act = act
exec (some e) said act = raise (said e)
