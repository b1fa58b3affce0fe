-- ===== src/UseCases/Authorize/Storing.antt =====
-- What the work of an authorisation leaves in the tables
-- (internal/application/payments/authorize.go over internal/infrastructure/postgres).
use mathlib.Core.Path.{subst}
use kafka_lab.Base.{
  Bool, Bool-cases, Option, [], any, ap, false, if◌then◌else◌, inl, inr, none, refl, some, sym,
  true, ◌++◌, ◌∙◌, ◌∷◌, ◌≡◌, ◌⊎◌,
}
use kafka_lab.Base.Text.{Text, codes, text_eq}
use kafka_lab.Base.Errors.{
  Error, Result, corrupt, err, idempotency_key_reused, join, ok, payment_storage, wrap,
}
use kafka_lab.Outboxwire.{Json}
use kafka_lab.Payment.Identity.{MerchantId, Uuids, id_string}
use kafka_lab.Payment.Events.{Event}
use kafka_lab.Payment.Aggregate.{Payment, Status, movement, pull_events, replays}
use kafka_lab.Database.{
  Action, Context, Database, Trace, after, bind, exec, insert_outbox, insert_payment, lift, pure,
  select_payment_by_key,
}
use kafka_lab.Database.Transaction.{Session, inside_of}
use kafka_lab.Database.Outbox.{EncodedEvent, append_events, append_pulled, encode_event, insert_row}
use kafka_lab.Database.Payments.{
  create_or_get, insert_row_of, row_of, stored_status, stored_under, under_key,
}
use kafka_lab.UseCases.Authorize.{AuthorizeResult, answer_of, store_once}

module _ (u : Uuids) (json : Json) where
  -- The tables with one row more for a payment, and one for an event of it.
  abbrev pub with_both : Trace → Payment → Text → EncodedEvent → Database → Database
  with_both trace p key e db =
      (insert_row trace e
        (record db { payments = db.payments ++ (row_of u json p (codes "authorized") key ∷ []) })).1

  abbrev pub AddsBoth : Trace → Payment → Text → Database → Database → Type 0
  AddsBoth trace p key db db' =
      (e : EncodedEvent) × (encode_event u json
          (Event.authorized (movement p p.history.authorized_at))
        ≡ ok e)
      × (db' ≡ with_both trace p key e db)

  -- What the work of an authorisation leaves, if it does not fail.
  abbrev pub StoresBoth :
      Trace → Payment → Text → Database → Result AuthorizeResult × Database → Type 0
  StoresBoth trace p key db (ok answer, db') =
      ((answer.stored ≡ true)
        × (answer.payment_id ≡ id_string u p.id)
        × AddsBoth trace p key db db')
      ⊎ ((answer.stored ≡ false) × (db' ≡ db))
  StoresBoth trace p key db (err e, db') = Unit {0}

  abbrev Appends : Trace → Event → Database → Result (Unit {0}) × Database → Type 0
  Appends trace event db (ok x, db') =
      (e : EncodedEvent) × (encode_event u json event ≡ ok e) × (db' ≡ (insert_row trace e db).1)
  Appends trace event db (err x, db') = Unit {0}

  one-Appends :
      (ctx : Context) (event : Event) (db : Database) (encoded : Result EncodedEvent)
      (fault : Option Error)
      → encode_event u json event ≡ encoded
      → Appends ctx.trace event db (
          bind
            (lift (wrap (corrupt ∷ []) encoded))
            (λ row.
              bind
                (exec fault (λ e. join (payment_storage ∷ []) e) (insert_row ctx.trace row))
                (λ _. append_pulled u json ctx 1 []))
            db)
  unfolding append_pulled
  one-Appends ctx event db (err x) fault h = tt
  one-Appends ctx event db (ok row) (some x) h = tt
  one-Appends ctx event db (ok row) none h = (row, h, refl)

  pulled-Appends :
      (ctx : Context) (event : Event) (db : Database)
      → Appends ctx.trace event db (append_pulled u json ctx 0 (event ∷ []) db)
  unfolding append_pulled
  pulled-Appends ctx event db =
      one-Appends ctx event db (encode_event u json event) (ctx.fault (insert_outbox 0)) refl

  answered-StoresBoth :
      (trace : Trace) (p : Payment) (key : Text) (db db1 : Database)
      (appended : Result (Unit {0}) × Database)
      → db1
        ≡ record db { payments = db.payments ++ (row_of u json p (codes "authorized") key ∷ []) }
      → Appends trace (Event.authorized (movement p p.history.authorized_at)) db1 appended
      → StoresBoth trace p key db (
          after
            (after (after appended (λ _. pure (pull_events p).1)) (λ q. pure (q, true)))
            (λ found. lift (answer_of u json p found)))
  unfolding answer_of pull_events
  answered-StoresBoth trace p key db db1 (err x, db') h a = tt
  answered-StoresBoth trace p key db db1 (ok x, db') h (e, encoded, same) =
      inl (refl, refl, (e, encoded, same ∙ ap (λ d. (insert_row trace e d).1) h))

  refused_or_old :
      (trace : Trace) (p : Payment) (key : Text) (id : Text) (db db' : Database)
      (refusal : Option Error)
      → db' ≡ db
      → StoresBoth trace p key db (
        elim refusal [
          | none ↦ ok (record { payment_id = id; stored = false })
          | some e ↦ err (join (idempotency_key_reused ∷ []) e)
        ],
        db',
      )
  refused_or_old trace p key id db db' none h = inr (refl, h)
  refused_or_old trace p key id db db' (some e) h = tt

  replayed-StoresBoth :
      (trace : Trace) (p : Payment) (key : Text) (db : Database) (found : Result Payment × Database)
      → found.1 ≡ db
      → StoresBoth trace p key db
          (after (after found (λ stored. pure (stored, false))) (λ f. lift (answer_of u json p f)))
  unfolding answer_of
  replayed-StoresBoth trace p key db (err x, db') h = tt
  replayed-StoresBoth trace p key db (ok stored, db') h =
      refused_or_old trace p key (id_string u stored.id) db db' (replays p stored) h

  exec-same :
      {A : Type 0} (fault : Option Error) (said : Error → Error) (r : Result A) (db : Database)
      → (exec fault said (lift r) db).1 ≡ db
  exec-same none said r db = refl
  exec-same (some e) said r db = refl

  stored_under-same :
      (ctx : Context) (merchant : MerchantId) (key : Text) (db : Database)
      → (stored_under u json ctx merchant key db).1 ≡ db
  unfolding stored_under
  stored_under-same ctx merchant key db = exec-same (ctx.fault select_payment_by_key) _ _ db

  -- What the insert of a payment comes to.
  abbrev Inserted : Payment → Text → Database → Result Bool × Database → Type 0
  Inserted p key db (ok true, db') =
      db' ≡ record db { payments = db.payments ++ (row_of u json p (codes "authorized") key ∷ []) }
  Inserted p key db (ok false, db') = db' ≡ db
  Inserted p key db (err e, db') = Unit {0}

  insert_row_of-Inserted :
      (p : Payment) (key : Text) (fault : Option Error) (said : Error → Error) (db : Database)
      → Inserted p key db (exec fault said (insert_row_of u json p (codes "authorized") key) db)
  unfolding insert_row_of
  insert_row_of-Inserted p key (some e) said db = tt
  insert_row_of-Inserted p key none said db =
      elim (Bool-cases (any (under_key p.merchant.value key) db.payments)) [
        | inl e ↦ rw e refl
        | inr e ↦ elim (Bool-cases (any (λ row. text_eq row.id (id_string u p.id)) db.payments)) [
          | inl e' ↦ rw (e, e') tt
          | inr e' ↦ rw (e, e') refl
        ]
      ]

  Inserted-StoresBoth :
      (ctx : Context) (p : Payment) (key : Text) (db : Database) (inserted : Result Bool × Database)
      → p.events ≡ Event.authorized (movement p p.history.authorized_at) ∷ []
      → Inserted p key db inserted
      → StoresBoth ctx.trace p key db (
          after
            (after inserted (λ new.
              if new
              then bind (append_events u json ctx p) (λ p'. pure (p', true))
              else bind (stored_under u json ctx p.merchant key) (λ stored. pure (stored, false))))
            (λ found. lift (answer_of u json p found)))
  unfolding append_events pull_events
  Inserted-StoresBoth ctx p key db (err e, db') fresh h = tt
  Inserted-StoresBoth ctx p key db (ok false, db') fresh h =
      replayed-StoresBoth ctx.trace p key db (stored_under u json ctx p.merchant key db')
        (stored_under-same ctx p.merchant key db' ∙ h)
  Inserted-StoresBoth ctx p key db (ok true, db') fresh h =
      answered-StoresBoth ctx.trace p key db db' _ h (
        subst
          (λ events.
            Appends ctx.trace (Event.authorized (movement p p.history.authorized_at)) db'
              (append_pulled u json ctx 0 events db'))
          (sym fresh)
          (pulled-Appends ctx (Event.authorized (movement p p.history.authorized_at)) db'))

  pub store_once-StoresBoth :
      (s : Session) (p : Payment) (key : Text) (db : Database)
      → p.status ≡ Status.authorized
      → p.events ≡ Event.authorized (movement p p.history.authorized_at) ∷ []
      → StoresBoth s.trace p key db (store_once u json p key (inside_of s) db)
  unfolding store_once create_or_get stored_status
  store_once-StoresBoth s p key db status fresh =
      let insert : Text → Action Bool = λ spelled.
        exec (s.fault insert_payment) (λ e. join (payment_storage ∷ []) e)
          (insert_row_of u json p spelled key) in
      let rest : Bool → Action (Payment × Bool) = λ new.
        if new
        then bind (append_events u json (inside_of s) p) (λ p'. pure (p', true))
        else bind (stored_under u json (inside_of s) p.merchant key)
            (λ stored. pure (stored, false)) in
      subst
        (λ coded. StoresBoth s.trace p key db (
          after (bind (lift (wrap (corrupt ∷ []) coded)) (λ spelled. bind (insert spelled) rest) db)
            (λ found. lift (answer_of u json p found))))
        (sym (ap stored_status status))
        (Inserted-StoresBoth (inside_of s) p key db (insert (codes "authorized") db) fresh
          (insert_row_of-Inserted p key (s.fault insert_payment) _ db))
