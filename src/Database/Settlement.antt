-- ===== src/Database/Settlement.antt =====
-- A transaction is all or nothing, and an error says which it was unless it says it cannot know.
use kafka_lab.Base.{Option, arith, false, inl, inr, none, refl, some, true, ◌++◌, ◌∙◌, ◌≡◌, ◌⊎◌}
use kafka_lab.Base.Errors.{Error, Result, commit_unknown, err, is, ok}
use kafka_lab.Database.{Action, Context, Database}
use kafka_lab.Database.Transaction.{
  CommitAnswer, IsHonest, Session, Terms, begin, commit, commit_failure, committed, failed, finish,
  in_context_terms, inside_of, is_documented_rollback, rollback, rolled_back_at_commit,
  rolled_back_at_commit_lem, said_in, within_tx,
}

-- What a transaction that began at `db`, over the work `work`, came to: with a value the work was
-- done and kept; with an error nothing was kept, or the error says that the outcome of the commit is
-- unknown and the work was done and kept.
abbrev pub Settled : {A : Type 0} → Result A × Database → Database → Result A × Database → Type 0
Settled work db (ok a, db') = work ≡ (ok a, db')
Settled {A} work db (err e, db') =
    (db' ≡ db) ⊎ ((is e commit_unknown ≡ true) × ((a : A) × (work ≡ (ok a, db'))))

commit_failure-is_unknown :
    (t : Terms) (e rest : Error)
    → rolled_back_at_commit e ≡ false
    → is (in_context_terms t (commit_failure e ++ rest)) commit_unknown ≡ true
unfolding commit_failure in_context_terms is
commit_failure-is_unknown t e rest h = ground arith

commit-Settled :
    {A : Type 0} (t : Terms) (c : CommitAnswer) (undo : Option Error) (a : A) (db db' : Database)
    → ((e : Error) → c ≡ failed e true → is_documented_rollback e ≡ false)
    → Settled (ok a, db') db (said_in t (commit c undo a db db'))
unfolding commit
commit-Settled t committed undo a db db' h = refl
commit-Settled t (failed e true) undo a db db' h = inr (
  commit_failure-is_unknown t e (rollback undo) (rolled_back_at_commit_lem e ∙ h e refl),
  (a, refl),
)
commit-Settled t (failed e false) undo a db db' h = inl refl

finish-Settled :
    {A : Type 0} (t : Terms) (s : Session) (db : Database) (work : Result A × Database)
    → IsHonest s
    → Settled work db (said_in t (finish s db work))
unfolding finish
finish-Settled t s db (ok a, db') h = commit-Settled t s.commit_answer s.rollback_fault a db db' h
finish-Settled t s db (err e, db') h = inl refl

begin-Settled :
    {A : Type 0} (t : Terms) (b : Option Error) (s : Session) (fn : Context → Action A)
    (db : Database)
    → IsHonest s
    → Settled (fn (inside_of s) db) db (said_in t (begin b s fn db))
unfolding begin
begin-Settled t (some e) s fn db h = inl refl
begin-Settled t none s fn db h = finish-Settled t s db (fn (inside_of s) db) h

-- With a server that applied nothing after an answer to COMMIT that Postgres or pgx documents as a
-- rollback, a transaction that returns a value has done and kept its work; one that
-- returns an error has left the tables as they were, unless the error says that the outcome of the
-- commit is unknown, and then they are as they were or as the finished work left them.
pub within_tx-Settled :
    {A : Type 0} (t : Terms) (s : Session) (fn : Context → Action A) (db : Database)
    → IsHonest s
    → Settled (fn (inside_of s) db) db (within_tx t s fn db)
unfolding within_tx
within_tx-Settled t s fn db h = begin-Settled t s.begin_fault s fn db h
