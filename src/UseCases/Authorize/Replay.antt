-- ===== src/UseCases/Authorize/Replay.antt =====
-- A key buys one payment (internal/application/payments/authorize.go,
-- internal/infrastructure/postgres/payments.go).
use mathlib.Core.Path.{subst}
use kafka_lab.Base.{
  Bool, Bool-cases, Option, [], any, arith, false, inl, inr, none, refl, some, sym, true, ◌∷◌, ◌≡◌,
}
use kafka_lab.Base.Text.{Text, is_empty}
use kafka_lab.Base.Time.{Time}
use kafka_lab.Base.Errors.{Error, Result, err, idempotency_key_reused, join, ok}
use kafka_lab.Outboxwire.{Json}
use kafka_lab.Payment.Identity.{MerchantId, PaymentId, Uuids, id_string, parse_merchant_id}
use kafka_lab.Payment.Money.{Money, money_eq, new_money, parse_currency, parse_money}
use kafka_lab.Payment.Aggregate.{Payment, authorize, replays}
use kafka_lab.Database.{Database, after, lift}
use kafka_lab.Database.Transaction.{Session, inside_of, payment_terms, within_tx}
use kafka_lab.Database.Endings.{within_tx-end}
use kafka_lab.Database.Payments.{under_key}
use kafka_lab.Database.Taken.{IsUnder, Replayed, create_or_get-Replayed}
use kafka_lab.UseCases.Authorize.{
  AuthorizeCommand, AuthorizeResult, answer_of, authorize_command, execute_authorize,
  store_authorized, store_once,
}

-- What a command names.
abbrev pub merchant_of : AuthorizeCommand → MerchantId
merchant_of cmd = record { value = cmd.merchant_id }

abbrev pub amount_of : AuthorizeCommand → Money
amount_of cmd = record { minor = cmd.amount_minor; currency = record { code = cmd.currency } }

module _ (u : Uuids) (json : Json) where
  -- What a command answers whose key is taken.
  abbrev pub AnswersAs :
      Database → MerchantId → Text → Money → Result AuthorizeResult × Database → Type 0
  AnswersAs db merchant key amount (ok answer, db') =
      (db' ≡ db)
      × (answer.stored ≡ false)
      × ((stored : Payment) × IsUnder u json db merchant key stored
          × (answer.payment_id ≡ id_string u stored.id)
          × (money_eq amount stored.amount ≡ true))
  AnswersAs db merchant key amount (err e, db') = db' ≡ db

  same_amount :
      (p stored : Payment) → replays p stored ≡ none → money_eq p.amount stored.amount ≡ true
  unfolding replays
  same_amount p stored h = ground arith

  replays-AnswersAs :
      (p stored : Payment) (key : Text) (db : Database)
      → IsUnder u json db p.merchant key stored
      → (refusal : Option Error) → replays p stored ≡ refusal
      → AnswersAs db p.merchant key p.amount (
        elim refusal [
          | none ↦ ok (record { payment_id = id_string u stored.id; stored = false })
          | some e ↦ err (join (idempotency_key_reused ∷ []) e)
        ],
        db,
      )
  replays-AnswersAs p stored key db h none e =
      (refl, refl, (stored, h, refl, same_amount p stored e))
  replays-AnswersAs p stored key db h (some x) e = refl

  answer_of-AnswersAs :
      (p stored : Payment) (key : Text) (db : Database)
      → IsUnder u json db p.merchant key stored
      → AnswersAs db p.merchant key p.amount (answer_of u json p (stored, false), db)
  unfolding answer_of
  answer_of-AnswersAs p stored key db h =
      replays-AnswersAs p stored key db h (replays p stored) refl

  store_once-AnswersAs :
      (p : Payment) (key : Text) (db : Database) (found : Result (Payment × Bool) × Database)
      → Replayed u json db p key found
      → AnswersAs db p.merchant key p.amount (after found (λ f. lift (answer_of u json p f)))
  store_once-AnswersAs p key db (ok (stored, true), db') h = cc
  store_once-AnswersAs p key db (ok (stored, false), db') h =
      subst (λ d. AnswersAs db p.merchant key p.amount (answer_of u json p (stored, false), d))
        (sym h.0) (answer_of-AnswersAs p stored key db h.2)
  store_once-AnswersAs p key db (err e, db') h = h

  unchanged :
      (db : Database) (merchant : MerchantId) (key : Text) (amount : Money)
      (r : Result AuthorizeResult × Database)
      → AnswersAs db merchant key amount r
      → r.1 ≡ db
  unchanged db merchant key amount (ok answer, db') h = h.0
  unchanged db merchant key amount (err e, db') h = h

  authorize_command-merchant :
      (cmd : AuthorizeCommand) (at : Time) (id : PaymentId) (p : Payment)
      → authorize_command cmd at id ≡ ok p
      → p.merchant ≡ merchant_of cmd
  unfolding authorize_command parse_merchant_id authorize
  authorize_command-merchant cmd at id p h = ground arith

  authorize_command-amount :
      (cmd : AuthorizeCommand) (at : Time) (id : PaymentId) (p : Payment)
      → authorize_command cmd at id ≡ ok p
      → p.amount ≡ amount_of cmd
  unfolding authorize_command parse_money parse_currency new_money authorize
  authorize_command-amount cmd at id p h = ground arith

  in_tx-AnswersAs :
      (s : Session) (p : Payment) (key : Text) (db : Database)
      → any (under_key p.merchant.value key) db.payments ≡ true
      → AnswersAs db p.merchant key p.amount
          (within_tx payment_terms s (store_once u json p key) db)
  unfolding store_once
  in_tx-AnswersAs s p key db taken =
      let worked : AnswersAs db p.merchant key p.amount (store_once u json p key (inside_of s) db) =
        store_once-AnswersAs p key db _
          (create_or_get-Replayed u json (inside_of s) p key db taken) in
      within_tx-end (AnswersAs db p.merchant key p.amount) payment_terms s (store_once u json p key)
        db worked (λ e. refl) (λ e. unchanged db p.merchant key p.amount _ worked)

  stored-AnswersAs :
      (s : Session) (cmd : AuthorizeCommand) (at : Time) (id : PaymentId) (db : Database)
      → any (under_key cmd.merchant_id cmd.idempotency_key) db.payments ≡ true
      → (parsed : Result Payment) → authorize_command cmd at id ≡ parsed
      → AnswersAs db
          (merchant_of cmd)
          cmd.idempotency_key
          (amount_of cmd)
          (store_authorized u json s cmd parsed db)
  unfolding store_authorized
  stored-AnswersAs s cmd at id db taken (err e) q = refl
  stored-AnswersAs s cmd at id db taken (ok p) q =
      let r = within_tx payment_terms s (store_once u json p cmd.idempotency_key) db in
      let by_merchant = authorize_command-merchant cmd at id p q in
      subst (λ a. AnswersAs db (merchant_of cmd) cmd.idempotency_key a r)
        (authorize_command-amount cmd at id p q)
        (subst (λ m. AnswersAs db m cmd.idempotency_key p.amount r) by_merchant
          (in_tx-AnswersAs s p cmd.idempotency_key db (
            subst
              (λ (m : MerchantId). any (under_key m.value cmd.idempotency_key) db.payments ≡ true)
              (sym by_merchant) taken)))

  -- A command whose key already has a payment of its merchant changes nothing in the tables, whatever
  -- becomes of the transaction. If it answers without an error, it answers `stored = false` and the id
  -- of the payment that is stored under the key, and the payment's amount is the one asked for.
  pub execute_authorize-AnswersAs :
      (s : Session) (cmd : AuthorizeCommand) (at : Time) (id : PaymentId) (db : Database)
      → any (under_key cmd.merchant_id cmd.idempotency_key) db.payments ≡ true
      → AnswersAs db
          (merchant_of cmd)
          cmd.idempotency_key
          (amount_of cmd)
          (execute_authorize u json s cmd at id db)
  unfolding execute_authorize store_authorized
  execute_authorize-AnswersAs s cmd at id db taken =
      elim (Bool-cases (is_empty cmd.idempotency_key)) [
        | inl e ↦ rw e refl
        | inr e ↦ rw e (stored-AnswersAs s cmd at id db taken (authorize_command cmd at id) refl)
      ]
