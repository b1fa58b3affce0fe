-- ===== src/Database/Taken.antt =====
-- What the store answers to a key that is taken (internal/application/payments/authorize.go,
-- internal/infrastructure/postgres/payments.go).
use kafka_lab.Base.{
  Bool, Option, [], any, false, find, if◌then◌else◌, none, not, refl, some, true, ◌∷◌, ◌≡◌,
}
use kafka_lab.Base.Text.{Text}
use kafka_lab.Base.Errors.{
  Error, Result, corrupt, err, join, no_rows, ok, outside_transaction, payment_storage, wrap,
}
use kafka_lab.Outboxwire.{Json}
use kafka_lab.Payment.Identity.{MerchantId, Uuids}
use kafka_lab.Payment.Aggregate.{Payment}
use kafka_lab.Database.{
  Action, Context, Database, PaymentRow, after, bind, exec, insert_payment, lift, pure, raise,
  select_payment_by_key,
}
use kafka_lab.Database.Outbox.{append_events}
use kafka_lab.Database.Payments.{
  create_or_get, fetch_row, insert_row_of, rebuilt, stored_status, stored_under, under_key,
}

module _ (u : Uuids) (json : Json) where
  -- The payment stored under the key.
  abbrev pub IsUnder : Database → MerchantId → Text → Payment → Type 0
  IsUnder db merchant key stored =
      (row : PaymentRow) × (find (under_key merchant.value key) db.payments ≡ some row)
      × (rebuilt u json row merchant ≡ ok stored)

  abbrev Found : Database → MerchantId → Text → Result Payment × Database → Type 0
  Found db merchant key (ok stored, db') = (db' ≡ db) × IsUnder db merchant key stored
  Found db merchant key (err e, db') = db' ≡ db

  rebuilt-Found :
      (db : Database) (merchant : MerchantId) (key : Text) (row : PaymentRow) (r : Result Payment)
      → find (under_key merchant.value key) db.payments ≡ some row
      → rebuilt u json row merchant ≡ r
      → Found db merchant key (r, db)
  rebuilt-Found db merchant key row (ok stored) e q = (refl, (row, e, q))
  rebuilt-Found db merchant key row (err x) e q = refl

  fetched-Found :
      (missing : Error) (db : Database) (merchant : MerchantId) (key : Text)
      (row : Option PaymentRow)
      → find (under_key merchant.value key) db.payments ≡ row
      → Found db merchant key (fetch_row u json missing row merchant, db)
  unfolding fetch_row
  fetched-Found missing db merchant key none e = refl
  fetched-Found missing db merchant key (some row) e =
      rebuilt-Found db merchant key row (rebuilt u json row merchant) e refl

  exec-Found :
      (fault : Option Error) (db : Database) (merchant : MerchantId) (key : Text)
      → Found db merchant key (
          exec fault
            (λ e. join (payment_storage ∷ []) e)
            (lift (
              fetch_row u json
                (payment_storage ∷ no_rows ∷ [])
                (find (under_key merchant.value key) db.payments)
                merchant))
            db)
  exec-Found none db merchant key = fetched-Found _ db merchant key _ refl
  exec-Found (some e) db merchant key = refl

  stored_under-Found :
      (ctx : Context) (merchant : MerchantId) (key : Text) (db : Database)
      → Found db merchant key (stored_under u json ctx merchant key db)
  unfolding stored_under
  stored_under-Found ctx merchant key db =
      exec-Found (ctx.fault select_payment_by_key) db merchant key

  -- What a use of a taken key answers.
  abbrev pub Replayed : Database → Payment → Text → Result (Payment × Bool) × Database → Type 0
  Replayed db p key (ok (stored, created), db') =
      (db' ≡ db) × (created ≡ false) × IsUnder db p.merchant key stored
  Replayed db p key (err e, db') = db' ≡ db

  Found-Replayed :
      (p : Payment) (key : Text) (db : Database) (found : Result Payment × Database)
      → Found db p.merchant key found
      → Replayed db p key (after found (λ stored. pure (stored, false)))
  Found-Replayed p key db (ok stored, db') h = (h.0, refl, h.1)
  Found-Replayed p key db (err e, db') h = h

  inserted-Replayed :
      (ctx : Context) (p : Payment) (key status : Text) (fault : Option Error) (db : Database)
      → any (under_key p.merchant.value key) db.payments ≡ true
      → Replayed db p key (
          after
            (exec fault (λ e. join (payment_storage ∷ []) e) (insert_row_of u json p status key) db)
            (λ inserted.
              if inserted
              then bind (append_events u json ctx p) (λ p'. pure (p', true))
              else bind (stored_under u json ctx p.merchant key) (λ stored. pure (stored, false))))
  unfolding insert_row_of
  inserted-Replayed ctx p key status (some e) db taken = refl
  inserted-Replayed ctx p key status none db taken =
      rw taken (Found-Replayed p key db _ (stored_under-Found ctx p.merchant key db))

  status-Replayed :
      (ctx : Context) (p : Payment) (key : Text) (db : Database)
      → any (under_key p.merchant.value key) db.payments ≡ true
      → (r : Result Text)
      → Replayed db p key (
          after (lift r db) (λ status.
            bind
              (exec
                (ctx.fault insert_payment)
                (λ e. join (payment_storage ∷ []) e)
                (insert_row_of u json p status key))
              (λ inserted.
                if inserted
                then bind (append_events u json ctx p) (λ p'. pure (p', true))
                else bind
                    (stored_under u json ctx p.merchant key)
                    (λ stored. pure (stored, false)))))
  status-Replayed ctx p key db taken (err e) = refl
  status-Replayed ctx p key db taken (ok status) =
      inserted-Replayed ctx p key status (ctx.fault insert_payment) db taken

  gate-Replayed :
      (inside : Bool) (p : Payment) (key : Text) (db : Database) (act : Action (Payment × Bool))
      → Replayed db p key (act db)
      → Replayed db p key ((if not inside then raise (outside_transaction ∷ []) else act) db)
  gate-Replayed true p key db act h = h
  gate-Replayed false p key db act h = refl

  pub create_or_get-Replayed :
      (ctx : Context) (p : Payment) (key : Text) (db : Database)
      → any (under_key p.merchant.value key) db.payments ≡ true
      → Replayed db p key (create_or_get u json ctx p key db)
  unfolding create_or_get
  create_or_get-Replayed ctx p key db taken =
      gate-Replayed ctx.inside p key db _
        (status-Replayed ctx p key db taken (wrap (corrupt ∷ []) (stored_status p.status)))
