-- ===== src/Database/Preserves.antt =====
-- What an action leaves true of the tables, whatever it answers (internal/infrastructure/postgres).
use kafka_lab.Base.{Bool, Option, false, if◌then◌else◌, none, some, true}
use kafka_lab.Base.Errors.{Error, Result, err, ok}
use kafka_lab.Database.{Action, Context, Database, after, bind, exec}
use kafka_lab.Database.Transaction.{Session, Terms, inside_of, within_tx}
use kafka_lab.Database.Endings.{within_tx-end}

module _ (P : Database → Type 0) where
  abbrev pub Preserves : {A : Type 0} → Action A → Type 0
  Preserves act = (db : Database) → P db → P (act db).1

  after-Preserves :
      {A B : Type 0} (r : Result A × Database) (f : A → Action B)
      → ((a : A) → Preserves (f a))
      → P r.1
      → P (after r f).1
  after-Preserves (ok a, db) f later h = later a db h
  after-Preserves (err e, db) f later h = h

  pub bind-Preserves :
      {A B : Type 0} (act : Action A) (f : A → Action B)
      → Preserves act
      → ((a : A) → Preserves (f a))
      → Preserves (bind act f)
  bind-Preserves act f first later db h = after-Preserves (act db) f later (first db h)

  pub exec-Preserves :
      {A : Type 0} (fault : Option Error) (said : Error → Error) (act : Action A)
      → Preserves act
      → Preserves (exec fault said act)
  exec-Preserves none said act keeps db h = keeps db h
  exec-Preserves (some e) said act keeps db h = h

  pub if-Preserves :
      {A : Type 0} (test : Bool) (yes_act no_act : Action A)
      → Preserves yes_act
      → Preserves no_act
      → Preserves (if test then yes_act else no_act)
  if-Preserves true yes_act no_act y n = y
  if-Preserves false yes_act no_act y n = n

  pub within_tx-Preserves :
      {A : Type 0} (t : Terms) (s : Session) (fn : Context → Action A)
      → Preserves (fn (inside_of s))
      → Preserves (within_tx t s fn)
  within_tx-Preserves t s fn keeps db h =
      within_tx-end (λ r. P r.1) t s fn db (keeps db h) (λ e. h) (λ e. keeps db h)
