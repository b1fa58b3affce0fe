-- ===== src/Http/Payments.antt =====
-- internal/interfaces/http/payments.go: the handlers, and the routes of server.go that lead to them.
pub mod Outcome
pub mod Access
pub mod Answers
use kafka_lab.Base.{List, Option, [], if◌then◌else◌, map, ℕ, ◌∷◌}
use kafka_lab.Base.Int.{ℤ}
use kafka_lab.Base.Text.{Text}
use kafka_lab.Base.Time.{Time}
use kafka_lab.Base.Errors.{Error, Result, err, malformed_body, ok, wrap, ◌>>=◌, ◌>>◌}
use kafka_lab.Outboxwire.{Json}
use kafka_lab.Merchant.{Total}
use kafka_lab.Payment.Identity.{PaymentId, Uuids}
use kafka_lab.Database.{Action, Database}
use kafka_lab.Database.Transaction.{Session}
use kafka_lab.UseCases.Authorize.{
  AuthorizeCommand, AuthorizeResult, execute_authorize, parse_idempotency_key,
}
use kafka_lab.UseCases.Change.{ChangeCommand, ChangeResult, execute_capture, execute_refund}
use kafka_lab.UseCases.ReadTotals.{execute_read}
use kafka_lab.Http.Refusals.{status_created, status_ok}
use kafka_lab.Http.Server.{
  Answer, Body, CurrencyTotal, Request, Server, authenticated, authorize_response, change_response,
  max_request_bytes, nothing_logged, refuse, respond, total_response,
}

-- `authorizeRequest`
pub record AuthorizeRequest : Type 0 where
  pub merchant_id : Text
  pub amount_minor : ℤ
  pub currency : Text

-- `json.Decoder` without unknown fields, over a body of which so many bytes may be read.
abbrev pub DecodeJson : Type 0
DecodeJson = ℕ → Text → Result AuthorizeRequest

-- What a request meets: its session with the database, the clock, the id that a new payment is
-- given, and the failure of the query of totals.
pub record Surroundings : Type 0 where
  pub session : Session
  pub now : Time
  pub new_id : PaymentId
  pub totals_fault : Option Error

-- The routes of `Handler` that ask for the API key, as the multiplexer finds them.
pub data Route : Type 0 where
  authorize_route capture_route refund_route total_route : Route

-- `readAuthorizeCommand`
unfoldable pub read_authorize_command : DecodeJson → Request → Result AuthorizeCommand
unfolding parse_idempotency_key
read_authorize_command decode r = do
  request ← wrap (malformed_body ∷ []) (decode max_request_bytes r.body)
  idempotency_key ← parse_idempotency_key r.idempotency_key
  ok (record {
    merchant_id = request.merchant_id;
    amount_minor = request.amount_minor;
    currency = request.currency;
    idempotency_key = idempotency_key;
  })

-- The answer to what a use case came to.
unfoldable pub answer_with :
    {A : Type 0} → Text → (A → ℕ × Body) → Result A × Database → Answer × Database
unfolding refuse respond
answer_with trace_id said (err e, db) = (refuse trace_id e, db)
answer_with trace_id said (ok a, db) =
    let (status, body) = said a in ((respond trace_id status body, nothing_logged), db)

unfoldable pub said_authorized : AuthorizeResult → ℕ × Body
said_authorized result =
    (if result.stored then status_created else status_ok, authorize_response result.payment_id)

unfoldable pub said_changed : ChangeResult → ℕ × Body
said_changed result = (status_ok, change_response result.payment_id result.status)

abbrev pub currency_total : Total → CurrencyTotal
currency_total total = record {
  currency = total.currency.code;
  authorized_minor = total.authorized;
  captured_minor = total.captured;
  refunded_minor = total.refunded;
}

unfoldable pub said_totals : Text → List Total → ℕ × Body
said_totals merchant_id totals = (status_ok, total_response merchant_id (map currency_total totals))

abbrev pub change_command : Request → ChangeCommand
change_command r = record { merchant_id = r.merchant_id; payment_id = r.payment_id }

module _ (u : Uuids) (json : Json) (decode : DecodeJson) where
  unfoldable pub authorize_read : Surroundings → Result AuthorizeCommand → Action AuthorizeResult
  unfolding execute_authorize
  authorize_read w (err e) db = (err e, db)
  authorize_read w (ok command) db = execute_authorize u json w.session command w.now w.new_id db

  -- `authorizePayment`
  unfoldable pub authorize_payment : Surroundings → Request → Database → Answer × Database
  unfolding read_authorize_command authorize_read answer_with said_authorized
  authorize_payment w r db =
      answer_with r.trace_id said_authorized (authorize_read w (read_authorize_command decode r) db)

  -- `changePayment`
  unfoldable pub change_payment :
      (ChangeCommand → Action ChangeResult) → Request → Database → Answer × Database
  unfolding answer_with said_changed
  change_payment change r db = answer_with r.trace_id said_changed (change (change_command r) db)

  -- `merchantTotal`
  unfoldable pub merchant_total : Surroundings → Request → Database → Answer × Database
  unfolding execute_read answer_with said_totals
  merchant_total w r db =
      answer_with r.trace_id (said_totals r.merchant_id)
        (execute_read w.totals_fault r.merchant_id db)

  unfoldable pub handle : Route → Surroundings → Request → Database → Answer × Database
  unfolding authorize_payment change_payment merchant_total execute_capture execute_refund
  handle authorize_route w = authorize_payment w
  handle capture_route w = change_payment (λ cmd. execute_capture u json w.session cmd w.now)
  handle refund_route w = change_payment (λ cmd. execute_refund u json w.session cmd w.now)
  handle total_route w = merchant_total w

  -- `Handler`, for those routes.
  unfoldable pub serve : Server → Route → Surroundings → Request → Database → Answer × Database
  unfolding authenticated handle
  serve s route w r db = authenticated s (handle route w) r db
