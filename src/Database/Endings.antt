-- ===== src/Database/Endings.antt =====
-- How a transaction can end (internal/infrastructure/postgres/storage.go and transactions.go).
use kafka_lab.Base.{Option, false, none, some, true}
use kafka_lab.Base.Errors.{Error, Result, err, ok}
use kafka_lab.Database.{Action, Context, Database}
use kafka_lab.Database.Transaction.{
  CommitAnswer, Session, Terms, begin, commit, committed, failed, finish, inside_of, said_in,
  within_tx,
}

module _ {A : Type 0} (P : Result A × Database → Type 0) where
  commit-end :
      (t : Terms) (c : CommitAnswer) (undo : Option Error) (a : A) (db db' : Database)
      → P (ok a, db')
      → ((e : Error) → P (err e, db))
      → ((e : Error) → P (err e, db'))
      → P (said_in t (commit c undo a db db'))
  unfolding commit
  commit-end t committed undo a db db' done undone unknown = done
  commit-end t (failed e true) undo a db db' done undone unknown = unknown _
  commit-end t (failed e false) undo a db db' done undone unknown = undone _

  finish-end :
      (t : Terms) (s : Session) (db : Database) (work : Result A × Database)
      → P work
      → ((e : Error) → P (err e, db))
      → ((e : Error) → P (err e, work.1))
      → P (said_in t (finish s db work))
  unfolding finish
  finish-end t s db (ok a, db') done undone unknown =
      commit-end t s.commit_answer s.rollback_fault a db db' done undone unknown
  finish-end t s db (err e, db') done undone unknown = undone _

  begin-end :
      (t : Terms) (b : Option Error) (s : Session) (fn : Context → Action A) (db : Database)
      → P (fn (inside_of s) db)
      → ((e : Error) → P (err e, db))
      → ((e : Error) → P (err e, (fn (inside_of s) db).1))
      → P (said_in t (begin b s fn db))
  unfolding begin
  begin-end t (some e) s fn db done undone unknown = undone _
  begin-end t none s fn db done undone unknown =
      finish-end t s db (fn (inside_of s) db) done undone unknown

  -- A transaction ends as its work did, or in an error with the tables as they were, or in an error
  -- with the tables as the work left them.
  pub within_tx-end :
      (t : Terms) (s : Session) (fn : Context → Action A) (db : Database)
      → P (fn (inside_of s) db)
      → ((e : Error) → P (err e, db))
      → ((e : Error) → P (err e, (fn (inside_of s) db).1))
      → P (within_tx t s fn db)
  unfolding within_tx
  within_tx-end t s fn db = begin-end t s.begin_fault s fn db
