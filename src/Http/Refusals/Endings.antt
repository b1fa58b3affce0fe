-- ===== src/Http/Refusals/Endings.antt =====
-- How an error of a payment's transaction is told (internal/interfaces/http/errors.go over
-- internal/infrastructure/postgres).
use kafka_lab.Base.{
  Bool, Bool-cases, Option, false, inl, inr, none, refl, some, true, ◌++◌, ◌∙◌, ◌∷◌, ◌≡◌, ◌⊎◌,
}
use kafka_lab.Base.Errors.{
  Error, Result, commit_unknown, err, is, ok, outcome_unknown, tag, tx_closed,
}
use kafka_lab.Database.{Action, Context, Database}
use kafka_lab.Database.Transaction.{
  CommitAnswer, IsHonest, Session, begin, commit, commit_failure, committed, failed, finish,
  in_context_terms, inside_of, is_documented_rollback, payment_terms, rollback,
  rolled_back_at_commit, rolled_back_at_commit_lem, run_tx, said_in, storage_within_tx, within_tx,
}
use kafka_lab.Http.Refusals.{failure_of, outcome_unknown_refusal, refusal_for}
use kafka_lab.Http.Refusals.Sorting.{
  IsForeign, IsForeign-IsUntold, IsUntold, IsUntold-append, outcome_unknown_told,
  rollback_failed-IsUntold,
}

-- The errors of the connection are the libraries' own.
abbrev pub HasForeignErrors : Session → Type 0
HasForeignErrors s =
    ((e : Error) (applied : Bool) → s.commit_answer ≡ failed e applied → IsForeign e)
    × ((e : Error) → s.rollback_fault ≡ some e → IsForeign e)

-- An error leaves the tables as they were, or is told as an unknown outcome.
abbrev pub Ended : {A : Type 0} → Database → Result A × Database → Type 0
Ended db (ok a, db') = Unit {0}
Ended db (err e, db') =
    (db' ≡ db)
    ⊎ ((refusal_for e ≡ failure_of outcome_unknown_refusal) × (is e outcome_unknown ≡ true))

rollback-IsUntold :
    (undo : Option Error) → ((e : Error) → undo ≡ some e → IsForeign e) → IsUntold (rollback undo)
unfolding rollback is
rollback-IsUntold none foreign s told = refl
rollback-IsUntold (some e) foreign s told = elim (Bool-cases (is e tx_closed)) [
  | inl closed ↦ rw closed refl
  | inr other ↦ rw other (rollback_failed-IsUntold e (IsForeign-IsUntold e (foreign e refl)) s told)
]

commit_failed :
    (e rest : Error)
    → rolled_back_at_commit e ≡ false
    → in_context_terms payment_terms (commit_failure e ++ rest)
      ≡ outcome_unknown ∷ commit_unknown ∷ (e ++ rest)
unfolding commit_failure in_context_terms is
commit_failed e rest h = rw h refl

starts_unknown : (e : Error) → is (outcome_unknown ∷ e) outcome_unknown ≡ true
unfolding is tag
starts_unknown e = refl

commit-Ended :
    {A : Type 0} (c : CommitAnswer) (undo : Option Error) (a : A) (db db' : Database)
    → ((e : Error) → c ≡ failed e true → is_documented_rollback e ≡ false)
    → ((e : Error) (applied : Bool) → c ≡ failed e applied → IsForeign e)
    → ((e : Error) → undo ≡ some e → IsForeign e)
    → Ended db (said_in payment_terms (commit c undo a db db'))
unfolding commit
commit-Ended committed undo a db db' honest foreign foreign' = tt
commit-Ended (failed e false) undo a db db' honest foreign foreign' = inl refl
commit-Ended (failed e true) undo a db db' honest foreign foreign' = inr (
    rw (commit_failed e (rollback undo) (rolled_back_at_commit_lem e ∙ honest e refl)) (
      outcome_unknown_told (e ++ rollback undo) (
          IsUntold-append e (rollback undo) (IsForeign-IsUntold e (foreign e true refl))
            (rollback-IsUntold undo foreign')),
      starts_unknown _,
    ))

finish-Ended :
    {A : Type 0} (s : Session) (db : Database) (work : Result A × Database)
    → IsHonest s
    → HasForeignErrors s
    → Ended db (said_in payment_terms (finish s db work))
unfolding finish
finish-Ended s db (ok a, db') honest foreign =
    commit-Ended s.commit_answer s.rollback_fault a db db' honest foreign.0 foreign.1
finish-Ended s db (err e, db') honest foreign = inl refl

begin-Ended :
    {A : Type 0} (b : Option Error) (s : Session) (fn : Context → Action A) (db : Database)
    → IsHonest s
    → HasForeignErrors s
    → Ended db (said_in payment_terms (begin b s fn db))
unfolding begin run_tx
begin-Ended (some e) s fn db honest foreign = inl refl
begin-Ended none s fn db honest foreign = finish-Ended s db (fn (inside_of s) db) honest foreign

pub within_tx-Ended :
    {A : Type 0} (s : Session) (fn : Context → Action A) (db : Database)
    → IsHonest s
    → HasForeignErrors s
    → Ended db (within_tx payment_terms s fn db)
unfolding within_tx storage_within_tx
within_tx-Ended s fn db honest foreign = begin-Ended s.begin_fault s fn db honest foreign
