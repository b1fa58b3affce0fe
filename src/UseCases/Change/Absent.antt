-- ===== src/UseCases/Change/Absent.antt =====
-- A payment that its merchant does not have is not changed (internal/application/payments/change.go,
-- internal/infrastructure/postgres/payments.go).
use kafka_lab.Base.{Bool, Option, false, find, if◌then◌else◌, none, not, refl, some, true, ◌≡◌}
use kafka_lab.Base.Time.{Time}
use kafka_lab.Base.Errors.{Error, Result, err, ok}
use kafka_lab.Outboxwire.{Json}
use kafka_lab.Payment.Identity.{MerchantId, PaymentId, Uuids, id_string}
use kafka_lab.Database.{
  Action, Context, Database, PaymentRow, after, exec, lift, raise, select_payment_for_update,
}
use kafka_lab.Database.Transaction.{Session, inside_of, payment_terms, within_tx}
use kafka_lab.Database.Endings.{within_tx-end}
use kafka_lab.Database.Payments.{fetch_row, find_for_update, with_id}
use kafka_lab.UseCases.Change.{
  ChangeCommand, Move, apply_change, apply_parsed, change_in, parse_change,
}

-- An error, with the tables as they were.
abbrev pub Refused : {A : Type 0} → Database → Result A × Database → Type 0
Refused db (ok a, db') = ⊥
Refused db (err e, db') = db' ≡ db

module _ (u : Uuids) (json : Json) where
  fetched-Refused :
      (fault : Option Error) (said : Error → Error) (missing : Error) (row : Option PaymentRow)
      (merchant : MerchantId) (db : Database)
      → row ≡ none
      → Refused db (exec fault said (lift (fetch_row u json missing row merchant)) db)
  unfolding fetch_row
  fetched-Refused none said missing none merchant db h = refl
  fetched-Refused none said missing (some row) merchant db h = cc
  fetched-Refused (some e) said missing row merchant db h = refl

  gate-Refused :
      {A : Type 0} (inside : Bool) (e : Error) (db : Database) (r : Result A × Database)
      → Refused db r
      → Refused db (if not inside then raise e db else r)
  gate-Refused true e db r h = h
  gate-Refused false e db r h = refl

  find_for_update-Refused :
      (ctx : Context) (id : PaymentId) (merchant : MerchantId) (db : Database)
      → find (with_id (id_string u id) merchant.value) db.payments ≡ none
      → Refused db (find_for_update u json ctx id merchant db)
  unfolding find_for_update
  find_for_update-Refused ctx id merchant db h =
      gate-Refused ctx.inside _ db _
        (fetched-Refused (ctx.fault select_payment_for_update) _ _ _ merchant db h)

  after-Refused :
      {A B : Type 0} (r : Result A × Database) (f : A → Action B) (db : Database)
      → Refused db r
      → Refused db (after r f)
  after-Refused (ok a, db') f db h = elim h [ ]
  after-Refused (err e, db') f db h = h

  Refused-tables : {A : Type 0} (db : Database) (r : Result A × Database) → Refused db r → r.1 ≡ db
  Refused-tables db (ok a, db') h = elim h [ ]
  Refused-tables db (err e, db') h = h

  change_in-Refused :
      (s : Session) (move : Move) (id : PaymentId) (merchant : MerchantId) (at : Time)
      (db : Database)
      → find (with_id (id_string u id) merchant.value) db.payments ≡ none
      → Refused db (within_tx payment_terms s (change_in u json move id merchant at) db)
  unfolding change_in
  change_in-Refused s move id merchant at db h =
      let worked : Refused db (change_in u json move id merchant at (inside_of s) db) =
        after-Refused (find_for_update u json (inside_of s) id merchant db) _ db
          (find_for_update-Refused (inside_of s) id merchant db h) in
      within_tx-end (Refused db) payment_terms s (change_in u json move id merchant at) db worked
        (λ e. refl) (λ e. Refused-tables db _ worked)

  -- A capture, a refund or any other move of a payment that the merchant of the command does not have
  -- is an error and changes nothing in the tables, whatever becomes of the transaction: so is that of
  -- a payment of another merchant.
  pub apply_change-Refused :
      (s : Session) (move : Move) (cmd : ChangeCommand) (at : Time) (db : Database) (id : PaymentId)
      (merchant : MerchantId)
      → parse_change u json cmd ≡ ok (id, merchant)
      → find (with_id (id_string u id) merchant.value) db.payments ≡ none
      → Refused db (apply_change u json s move cmd at db)
  unfolding apply_change apply_parsed
  apply_change-Refused s move cmd at db id merchant parsed absent =
      rw parsed (change_in-Refused s move id merchant at db absent)
