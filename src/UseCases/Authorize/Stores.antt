-- ===== src/UseCases/Authorize/Stores.antt =====
-- A payment and the event that announces it are stored together
-- (internal/application/payments/authorize.go over internal/infrastructure/postgres).
use mathlib.Core.Path.{subst}
use kafka_lab.Base.{
  Bool-cases, [], ap, arith, false, inl, inr, none, refl, sym, true, ◌++◌, ◌+◌, ◌∙◌, ◌∷◌, ◌≡◌, ◌⊎◌,
}
use kafka_lab.Base.Text.{Text, codes, is_empty}
use kafka_lab.Base.Time.{Time}
use kafka_lab.Base.Errors.{>>=-eq-ok, Error, Result, commit_unknown, err, is, ok}
use kafka_lab.Outboxwire.{Json}
use kafka_lab.Payment.Identity.{PaymentId, Uuids, id_string}
use kafka_lab.Payment.Events.{Event}
use kafka_lab.Payment.Aggregate.{Payment, Status, authorize, movement}
use kafka_lab.Database.{Database, Trace}
use kafka_lab.Database.Outbox.{encode_event, event_type, insert_row, payload_of}
use kafka_lab.Database.Transaction.{IsHonest, Session, payment_terms}
use kafka_lab.Database.Settlement.{Settled, within_tx-Settled}
use kafka_lab.UseCases.Authorize.{
  AuthorizeCommand, AuthorizeResult, authorize_command, execute_authorize, store_authorized,
  store_once,
}
use kafka_lab.UseCases.Authorize.Storing.{AddsBoth, StoresBoth, store_once-StoresBoth, with_both}

module _ (u : Uuids) (json : Json) where
  -- The tables with the row of a payment and the row of its event, column by column; the outbox row
  -- takes the next id, is not published, and holds the payment's data as JSON.
  abbrev pub StoredBoth : Trace → Payment → Text → Database → Database → Type 0
  StoredBoth trace p key db db' =
      (text : Text) × (json.marshal (record {
        payment_id = id_string u p.id;
        merchant_id = p.merchant.value;
        amount_minor = p.amount.minor;
        currency = p.amount.currency.code;
        occurred_at = p.history.authorized_at;
      })
        ≡ ok text)
      × (db' ≡ record db {
        payments =
            db.payments
            ++ (record {
              id = id_string u p.id;
              merchant_id = p.merchant.value;
              amount_minor = p.amount.minor;
              currency = p.amount.currency.code;
              status = codes "authorized";
              idempotency_key = key;
              authorized_at = p.history.authorized_at;
              captured_at = none;
              refunded_at = none;
            }
                ∷ []);
        outbox =
            db.outbox
            ++ (record {
              id = db.next_id;
              aggregate_id = id_string u p.id;
              event_type = codes "payment.authorized";
              payload = text;
              occurred_at = p.history.authorized_at;
              published_at = none;
              trace_context = trace;
            }
                ∷ []);
        next_id = db.next_id + 1;
      })

  AddsBoth-StoredBoth :
      (trace : Trace) (p : Payment) (key : Text) (db db' : Database)
      → AddsBoth u json trace p key db db'
      → StoredBoth trace p key db db'
  unfolding encode_event insert_row event_type
  AddsBoth-StoredBoth trace p key db db' (e, encoded, same) =
      let (text, marshalled, made) =
        >>=-eq-ok
          (json.marshal (payload_of u (Event.authorized (movement p p.history.authorized_at)))) _
          encoded in
      let is_e : (record {
        aggregate_id = id_string u p.id;
        event_type = codes "payment.authorized";
        payload = text;
        occurred_at = p.history.authorized_at;
      })
          ≡ e =
        ground arith in
      (text, marshalled, same ∙ ap (λ x. with_both u json trace p key x db) (sym is_e))

  -- How an authorisation ends: with the payment and its event stored together, or with an answer that
  -- an earlier one was found, or with nothing stored; after an error that cannot know which, with
  -- both stored or nothing.
  abbrev pub Ends : Trace → Payment → Text → Database → Result AuthorizeResult × Database → Type 0
  Ends trace p key db (ok answer, db') =
      ((answer.stored ≡ true)
        × (answer.payment_id ≡ id_string u p.id)
        × StoredBoth trace p key db db')
      ⊎ ((answer.stored ≡ false) × (db' ≡ db))
  Ends trace p key db (err e, db') =
      (db' ≡ db) ⊎ ((is e commit_unknown ≡ true) × StoredBoth trace p key db db')

  StoresBoth-Ends :
      (trace : Trace) (p : Payment) (key : Text) (db db' : Database) (a : AuthorizeResult)
      → StoresBoth u json trace p key db (ok a, db')
      → Ends trace p key db (ok a, db')
  StoresBoth-Ends trace p key db db' a (inl (stored, named, both)) =
      inl (stored, named, AddsBoth-StoredBoth trace p key db db' both)
  StoresBoth-Ends trace p key db db' a (inr old) = inr old

  kept-Ends :
      (trace : Trace) (p : Payment) (key : Text) (db db' : Database) (e : Error)
      (a : AuthorizeResult)
      → is e commit_unknown ≡ true
      → StoresBoth u json trace p key db (ok a, db')
      → Ends trace p key db (err e, db')
  kept-Ends trace p key db db' e a known (inl (stored, named, both)) =
      inr (known, AddsBoth-StoredBoth trace p key db db' both)
  kept-Ends trace p key db db' e a known (inr (old, same)) = inl same

  Settled-Ends :
      (trace : Trace) (p : Payment) (key : Text) (db : Database)
      (work final : Result AuthorizeResult × Database)
      → StoresBoth u json trace p key db work
      → Settled work db final
      → Ends trace p key db final
  Settled-Ends trace p key db work (ok a, db') worked done =
      StoresBoth-Ends trace p key db db' a (subst (StoresBoth u json trace p key db) done worked)
  Settled-Ends trace p key db work (err e, db') worked (inl same) = inl same
  Settled-Ends trace p key db work (err e, db') worked (inr (known, (a, done))) =
      kept-Ends trace p key db db' e a known (subst (StoresBoth u json trace p key db) done worked)

  authorize_command-fresh :
      (cmd : AuthorizeCommand) (at : Time) (id : PaymentId) (p : Payment)
      → authorize_command cmd at id ≡ ok p
      → (p.status ≡ Status.authorized)
        × (p.events ≡ Event.authorized (movement p p.history.authorized_at) ∷ [])
  unfolding authorize_command authorize
  authorize_command-fresh cmd at id p h = ground arith

  -- With an honest server, an authorisation that the domain accepts ends in one of these ways. It
  -- answers that it stored the payment, with its id, and the tables have one row more with its data,
  -- authorised under the key, and one outbox row more under the next id, unpublished, with the
  -- payment's data as the payload of an authorised event, and nothing else has changed. Or it answers that the key had bought one before, and
  -- nothing has changed. Or it is an error and nothing has changed, unless the error says that the
  -- outcome of the commit is unknown, and then both rows may be there, never one of them.
  pub execute_authorize-Ends :
      (s : Session) (cmd : AuthorizeCommand) (at : Time) (id : PaymentId) (p : Payment)
      (db : Database)
      → IsHonest s
      → authorize_command cmd at id ≡ ok p
      → Ends s.trace p cmd.idempotency_key db (execute_authorize u json s cmd at id db)
  unfolding execute_authorize store_authorized
  execute_authorize-Ends s cmd at id p db honest accepted =
      elim (Bool-cases (is_empty cmd.idempotency_key)) [
        | inl e ↦ rw e (inl refl)
        | inr e ↦
            rw (e, accepted)
              (Settled-Ends s.trace p cmd.idempotency_key db _ _
                (store_once-StoresBoth u json s p cmd.idempotency_key db
                  (authorize_command-fresh cmd at id p accepted).0
                  (authorize_command-fresh cmd at id p accepted).1)
                (within_tx-Settled payment_terms s (store_once u json p cmd.idempotency_key) db
                  honest))
      ]
