-- ===== src/Database/Transaction.antt =====
-- internal/infrastructure/postgres/storage.go and transactions.go: one transaction, how it ends,
-- and the words in which each context is told.
use kafka_lab.Base.{
  Bool, List, Option, [], any, false, if◌then◌else◌, none, refl, some, true, ◌&&◌, ◌||◌, ◌∷◌, ◌≡◌,
}
use kafka_lab.Base.Text.{Text, codes, has_prefix, text_eq}
use kafka_lab.Base.Errors.{
  Error, Result, Sentinel, as_pg_error, commit_unknown, err, is, join, merchant_storage,
  not_applied, ok, outbox_storage, outcome_unknown, payment_storage, rollback_failed, tx_closed,
  tx_commit_rollback,
}
use kafka_lab.Database.{Action, Context, Database, Statement, Trace}

-- The server's answer to COMMIT: carried out, or an error, with what became of the transaction.
pub data CommitAnswer : Type 0 where
  committed : CommitAnswer
  failed : Error → Bool → CommitAnswer

-- The server and the connection, over one transaction.
pub record Session : Type 0 where
  pub begin_fault : Option Error
  pub fault : Statement → Option Error
  pub commit_answer : CommitAnswer
  pub rollback_fault : Option Error
  pub trace : Trace

abbrev pub refused_value_codes : List Text
refused_value_codes = codes "22003" ∷ codes "22021" ∷ codes "22P05" ∷ []

abbrev pub rolled_back_codes : List Text
rolled_back_codes = codes "40001" ∷ codes "40P01" ∷ codes "40002" ∷ []

abbrev pub error_severity : Text
error_severity = codes "ERROR"

abbrev pub constraint_class : Text
constraint_class = codes "23"

-- `slices.Contains`
abbrev pub contains : List Text → Text → Bool
contains l t = any (λ x. text_eq x t) l

unfoldable pub rolled_back_at_commit : Error → Bool
rolled_back_at_commit e = if is e tx_commit_rollback then true else elim (as_pg_error e) [
  | none ↦ false
  | some (severity, code) ↦
      text_eq severity error_severity
      && (contains rolled_back_codes code || has_prefix code constraint_class)
]

unfoldable pub refused_by_data : Error → Bool
refused_by_data e = elim (as_pg_error e) [
  | none ↦ false
  | some (_, code) ↦ contains refused_value_codes code
]

unfoldable pub commit_failure : Error → Error
commit_failure e =
    if rolled_back_at_commit e then join (not_applied ∷ []) e else join (commit_unknown ∷ []) e

-- What a failed rollback adds to the error; one that finds the transaction closed adds nothing.
unfoldable pub rollback : Option Error → Error
rollback none = []
rollback (some e) = if is e tx_closed then [] else join (rollback_failed ∷ []) e

-- What the answer to COMMIT makes of a transaction that has turned `db` into `db'`; after an error
-- the rollback is tried too.
unfoldable pub commit :
    {A : Type 0} → CommitAnswer → Option Error → A → Database → Database → Result A × Database
commit committed undo a db db' = (ok a, db')
commit (failed e applied) undo a db db' =
    (err (join (commit_failure e) (rollback undo)), if applied then db' else db)

-- The end of `runTx`: a commit if the function returned no error, and a rollback if it did.
unfoldable pub finish :
    {A : Type 0} → Session → Database → Result A × Database → Result A × Database
unfolding commit
finish s db (ok a, db') = commit s.commit_answer s.rollback_fault a db db'
finish s db (err e, db') = (err (join e (rollback s.rollback_fault)), db)

-- The context that the function of a transaction is called with.
abbrev pub inside_of : Session → Context
inside_of s = record { inside = true; fault = s.fault; trace = s.trace }

-- `runTx`: what the function wrote is kept only by a commit.
unfoldable pub run_tx : {A : Type 0} → Session → (Context → Action A) → Action A
unfolding finish
run_tx s fn db = finish s db (fn (inside_of s) db)

-- `Begin`, and then the transaction.
unfoldable pub begin : {A : Type 0} → Option Error → Session → (Context → Action A) → Action A
unfolding run_tx
begin (some e) s fn db = (err (join (not_applied ∷ []) e), db)
begin none s fn db = run_tx s fn db

-- `Storage.WithinTx`: inside a transaction the work joins it.
unfoldable pub storage_within_tx :
    {A : Type 0} → Session → Context → (Context → Action A) → Action A
unfolding begin
storage_within_tx s ctx fn db = if ctx.inside then fn ctx db else begin s.begin_fault s fn db

-- `Transactions`: the words of one context for a transaction that was not applied, and for one
-- whose outcome is unknown.
pub record Terms : Type 0 where
  pub not_applied_as : Sentinel
  pub unknown_as : Sentinel

abbrev pub payment_terms : Terms
payment_terms = record { not_applied_as = payment_storage; unknown_as = outcome_unknown }

abbrev pub merchant_terms : Terms
merchant_terms = record { not_applied_as = merchant_storage; unknown_as = merchant_storage }

abbrev pub outbox_terms : Terms
outbox_terms = record { not_applied_as = outbox_storage; unknown_as = outbox_storage }

unfoldable pub in_context_terms : Terms → Error → Error
in_context_terms t e =
    if is e commit_unknown
    then join (t.unknown_as ∷ []) e
    else if is e not_applied
    then join (t.not_applied_as ∷ []) e
    else e

abbrev pub said_in : {A : Type 0} → Terms → Result A × Database → Result A × Database
said_in t (ok a, db) = (ok a, db)
said_in t (err e, db) = (err (in_context_terms t e), db)

-- A use case's `WithinTx`, called outside any transaction.
unfoldable pub within_tx : {A : Type 0} → Terms → Session → (Context → Action A) → Action A
unfolding storage_within_tx
within_tx t s fn db =
    said_in t
      (storage_within_tx s (record { inside = false; fault = s.fault; trace = s.trace }) fn db)

-- What the documentation of Postgres and of pgx calls a rollback in the answer to COMMIT: an error of
-- severity ERROR under serialization_failure, deadlock_detected,
-- transaction_integrity_constraint_violation or a code of class 23; or pgx's own report that COMMIT
-- was answered with ROLLBACK. Under 40003, statement_completion_unknown, it is not known.
abbrev pub is_documented_rollback : Error → Bool
is_documented_rollback e = if is e tx_commit_rollback then true else elim (as_pg_error e) [
  | none ↦ false
  | some (severity, code) ↦
      text_eq severity (codes "ERROR")
      && (any (λ x. text_eq x code) (codes "40001" ∷ codes "40P01" ∷ codes "40002" ∷ [])
          || has_prefix code (codes "23"))
]

-- After such an answer the transaction was not applied.
abbrev pub IsHonest : Session → Type 0
IsHonest s = (e : Error) → s.commit_answer ≡ failed e true → is_documented_rollback e ≡ false

-- The code reads exactly these answers as a rollback.
pub rolled_back_at_commit_lem : (e : Error) → rolled_back_at_commit e ≡ is_documented_rollback e
unfolding rolled_back_at_commit
rolled_back_at_commit_lem e = refl
