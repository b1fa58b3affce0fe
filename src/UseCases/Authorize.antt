-- ===== src/UseCases/Authorize.antt =====
-- internal/application/payments/authorize.go and idempotency_key.go: what the command asks for, as
-- a payment, and the payment that an idempotency key buys.
pub mod Replay
pub mod Storing
pub mod Stores
use kafka_lab.Base.{
  Bool, [], false, if◌then◌else◌, length, ltb, none, not, some, true, ℕ, ◌||◌, ◌∷◌,
}
use kafka_lab.Outboxwire.{Json}
use kafka_lab.Database.{Action, Context, bind, lift, raise}
use kafka_lab.Database.Transaction.{Session, payment_terms, within_tx}
use kafka_lab.Database.Payments.{create_or_get}
use kafka_lab.Base.Int.{ℤ}
use kafka_lab.Base.Text.{Text, contains_nul, is_empty, valid_utf8}
use kafka_lab.Base.Time.{Time}
use kafka_lab.Base.Errors.{
  Result, err, idempotency_key_invalid, idempotency_key_required, idempotency_key_reused,
  idempotency_key_too_long, join, ok, ◌>>=◌, ◌>>◌,
}
use kafka_lab.Payment.Money.{parse_money}
use kafka_lab.Payment.Identity.{PaymentId, Uuids, id_string, parse_merchant_id}
use kafka_lab.Payment.Aggregate.{Payment, authorize, replays}

-- `AuthorizeCommand`; the idempotency key is the text of an `IdempotencyKey`.
pub record AuthorizeCommand : Type 0 where
  pub merchant_id : Text
  pub amount_minor : ℤ
  pub currency : Text
  pub idempotency_key : Text

-- `authorize`, which parses the command's primitives.
unfoldable pub authorize_command : AuthorizeCommand → Time → PaymentId → Result Payment
unfolding parse_merchant_id parse_money authorize
authorize_command cmd at id = do
  merchant ← parse_merchant_id cmd.merchant_id
  amount ← parse_money cmd.amount_minor cmd.currency
  authorize id merchant amount at

abbrev pub max_idempotency_key_length : ℕ
max_idempotency_key_length = 255

-- `ParseIdempotencyKey`
unfoldable pub parse_idempotency_key : Text → Result Text
parse_idempotency_key raw =
    if is_empty raw
    then err (idempotency_key_required ∷ [])
    else if ltb max_idempotency_key_length (length raw)
    then err (idempotency_key_too_long ∷ [])
    else if not (valid_utf8 raw) || contains_nul raw
    then err (idempotency_key_invalid ∷ [])
    else ok raw

pub record AuthorizeResult : Type 0 where
  pub payment_id : Text
  pub stored : Bool

module _ (u : Uuids) (json : Json) where
  -- `storeOnce`, by what the store answered: the payment, and whether it was created.
  unfoldable pub answer_of : Payment → Payment × Bool → Result AuthorizeResult
  unfolding replays
  answer_of p (stored, true) = ok (record { payment_id = id_string u stored.id; stored = true })
  answer_of p (stored, false) = elim (replays p stored) [
    | none ↦ ok (record { payment_id = id_string u stored.id; stored = false })
    | some e ↦ err (join (idempotency_key_reused ∷ []) e)
  ]

  unfoldable pub store_once : Payment → Text → Context → Action AuthorizeResult
  unfolding create_or_get answer_of
  store_once p key ctx = bind (create_or_get u json ctx p key) (λ found. lift (answer_of p found))

  -- `execute`, by what the domain made of the command.
  unfoldable pub store_authorized :
      Session → AuthorizeCommand → Result Payment → Action AuthorizeResult
  unfolding within_tx store_once
  store_authorized s cmd (err e) = raise e
  store_authorized s cmd (ok p) = within_tx payment_terms s (store_once p cmd.idempotency_key)

  -- `AuthorizePayment.execute`
  unfoldable pub execute_authorize :
      Session → AuthorizeCommand → Time → PaymentId → Action AuthorizeResult
  unfolding authorize_command store_authorized
  execute_authorize s cmd at id =
      if is_empty cmd.idempotency_key
      then raise (idempotency_key_required ∷ [])
      else store_authorized s cmd (authorize_command cmd at id)
