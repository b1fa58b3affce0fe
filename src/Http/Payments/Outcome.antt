-- ===== src/Http/Payments/Outcome.antt =====
-- What a caller may conclude from an answer (internal/interfaces/http/payments.go over
-- internal/application/payments and internal/infrastructure/postgres).
use kafka_lab.Base.{Bool-cases, List, Option, inl, inr, none, refl, some, true, ℕ, ◌≡◌, ◌⊎◌}
use kafka_lab.Base.Text.{Text, is_empty, text_eq}
use kafka_lab.Base.Time.{Time}
use kafka_lab.Base.Errors.{Error, Result, err, is, ok, outcome_unknown}
use kafka_lab.Outboxwire.{Json}
use kafka_lab.Merchant.{MerchantKey, Total, parse_merchant_key}
use kafka_lab.Payment.Identity.{MerchantId, PaymentId, Uuids}
use kafka_lab.Payment.Aggregate.{Payment, capture, refund}
use kafka_lab.Database.{Database}
use kafka_lab.Database.Transaction.{IsHonest, Session}
use kafka_lab.UseCases.Authorize.{
  AuthorizeCommand, AuthorizeResult, authorize_command, execute_authorize, store_authorized,
  store_once,
}
use kafka_lab.UseCases.Change.{
  ChangeResult, Move, apply_change, apply_parsed, change_in, execute_capture, execute_refund,
  parse_change,
}
use kafka_lab.UseCases.ReadTotals.{execute_read, totals_for, totals_of}
use kafka_lab.Http.Refusals.{
  failure_of, outcome_unknown_refusal, refusal_for, status_created, status_ok,
  status_service_unavailable,
}
use kafka_lab.Http.Refusals.Endings.{Ended, HasForeignErrors, within_tx-Ended}
use kafka_lab.Http.Server.Fields.{has_field, has_field-respond}
use kafka_lab.Http.Server.{
  Answer, Body, Request, Response, Server, authenticated, failure_body, logged_for,
  outcome_unknown_logged, refuse, respond, retry_after,
}
use kafka_lab.Http.Payments.{
  DecodeJson, Route, Surroundings, answer_with, authorize_payment, authorize_read, authorize_route,
  capture_route, change_command, change_payment, handle, merchant_total, read_authorize_command,
  refund_route, said_authorized, said_changed, said_totals, serve, total_route,
}

abbrev IsSuccess : Response → Type 0
IsSuccess r = (r.status ≡ status_ok) ⊎ (r.status ≡ status_created)

-- 503 with the code `outcome_unknown` and a time to come back, and the error is logged as such.
abbrev TellsUnknown : Answer → Type 0
TellsUnknown (r, logged) =
    (r.status ≡ status_service_unavailable)
    × (r.body ≡ failure_body (failure_of outcome_unknown_refusal).1)
    × (has_field retry_after r.fields ≡ true)
    × ((e : Error) × (logged ≡ outcome_unknown_logged e))

-- What an answer says of the tables that the request found.
abbrev pub IsTrueOf : Database → Answer × Database → Type 0
IsTrueOf db (answer, db') = IsSuccess answer.0 ⊎ (TellsUnknown answer ⊎ (db' ≡ db))

refuse-TellsUnknown :
    (trace_id : Text) (e : Error)
    → refusal_for e ≡ failure_of outcome_unknown_refusal
    → is e outcome_unknown ≡ true
    → TellsUnknown (refuse trace_id e)
unfolding refuse respond logged_for
refuse-TellsUnknown trace_id e h k =
    rw (h, k)
      (
        refl,
        refl,
        has_field-respond trace_id status_service_unavailable
            (failure_body (failure_of outcome_unknown_refusal).1),
        (e, refl),
      )

answer_with-IsTrueOf :
    {A : Type 0} (trace_id : Text) (said : A → ℕ × Body) (db : Database)
    (result : Result A × Database)
    → ((a : A) → ((said a).0 ≡ status_ok) ⊎ ((said a).0 ≡ status_created))
    → Ended db result
    → IsTrueOf db (answer_with trace_id said result)
unfolding answer_with respond
answer_with-IsTrueOf trace_id said db (ok a, db') good ended = inl (good a)
answer_with-IsTrueOf trace_id said db (err e, db') good (inl same) = inr (inr same)
answer_with-IsTrueOf trace_id said db (err e, db') good (inr (told, known)) =
    inr (inl (refuse-TellsUnknown trace_id e told known))

said_authorized-good :
    (a : AuthorizeResult)
    → ((said_authorized a).0 ≡ status_ok) ⊎ ((said_authorized a).0 ≡ status_created)
unfolding said_authorized
said_authorized-good a = elim (Bool-cases a.stored) [
  | inl e ↦ rw e (inr refl)
  | inr e ↦ rw e (inl refl)
]

said_changed-good :
    (a : ChangeResult) → ((said_changed a).0 ≡ status_ok) ⊎ ((said_changed a).0 ≡ status_created)
unfolding said_changed
said_changed-good a = inl refl

said_totals-good :
    (m : Text) (ts : List Total)
    → ((said_totals m ts).0 ≡ status_ok) ⊎ ((said_totals m ts).0 ≡ status_created)
unfolding said_totals
said_totals-good m ts = inl refl

lifted-Ended : {A : Type 0} (r : Result A) (db : Database) → Ended db (r, db)
lifted-Ended (ok a) db = tt
lifted-Ended (err e) db = inl refl

totals_for-Ended :
    (fault : Option Error) (parsed : Result MerchantKey) (db : Database)
    → Ended db (totals_for fault parsed db)
unfolding totals_for totals_of
totals_for-Ended fault (err e) db = inl refl
totals_for-Ended (some e) (ok key) db = inl refl
totals_for-Ended none (ok key) db = lifted-Ended _ db

module _ (u : Uuids) (json : Json) (decode : DecodeJson) where
  store_authorized-Ended :
      (s : Session) (cmd : AuthorizeCommand) (parsed : Result Payment) (db : Database)
      → IsHonest s
      → HasForeignErrors s
      → Ended db (store_authorized u json s cmd parsed db)
  unfolding store_authorized
  store_authorized-Ended s cmd (err e) db honest foreign = inl refl
  store_authorized-Ended s cmd (ok p) db honest foreign =
      within_tx-Ended s (store_once u json p cmd.idempotency_key) db honest foreign

  execute_authorize-Ended :
      (s : Session) (cmd : AuthorizeCommand) (at : Time) (id : PaymentId) (db : Database)
      → IsHonest s
      → HasForeignErrors s
      → Ended db (execute_authorize u json s cmd at id db)
  unfolding execute_authorize
  execute_authorize-Ended s cmd at id db honest foreign =
      elim (Bool-cases (is_empty cmd.idempotency_key)) [
        | inl e ↦ rw e (inl refl)
        | inr e ↦
            rw e (store_authorized-Ended s cmd (authorize_command cmd at id) db honest foreign)
      ]

  authorize_read-Ended :
      (w : Surroundings) (parsed : Result AuthorizeCommand) (db : Database)
      → IsHonest w.session
      → HasForeignErrors w.session
      → Ended db (authorize_read u json decode w parsed db)
  unfolding authorize_read
  authorize_read-Ended w (err e) db honest foreign = inl refl
  authorize_read-Ended w (ok cmd) db honest foreign =
      execute_authorize-Ended w.session cmd w.now w.new_id db honest foreign

  apply_parsed-Ended :
      (s : Session) (move : Move) (at : Time) (parsed : Result (PaymentId × MerchantId))
      (db : Database)
      → IsHonest s
      → HasForeignErrors s
      → Ended db (apply_parsed u json s move at parsed db)
  unfolding apply_parsed
  apply_parsed-Ended s move at (err e) db honest foreign = inl refl
  apply_parsed-Ended s move at (ok (id, merchant)) db honest foreign =
      within_tx-Ended s (change_in u json move id merchant at) db honest foreign

  handle-IsTrueOf :
      (route : Route) (w : Surroundings) (r : Request) (db : Database)
      → IsHonest w.session
      → HasForeignErrors w.session
      → IsTrueOf db (handle u json decode route w r db)
  unfolding handle authorize_payment change_payment merchant_total execute_capture execute_refund
      apply_change execute_read
  handle-IsTrueOf authorize_route w r db honest foreign =
      answer_with-IsTrueOf r.trace_id said_authorized db _ said_authorized-good
        (authorize_read-Ended w (read_authorize_command decode r) db honest foreign)
  handle-IsTrueOf capture_route w r db honest foreign =
      answer_with-IsTrueOf r.trace_id said_changed db _ said_changed-good (
        apply_parsed-Ended w.session capture w.now (parse_change u json (change_command r)) db
          honest foreign)
  handle-IsTrueOf refund_route w r db honest foreign =
      answer_with-IsTrueOf r.trace_id said_changed db _ said_changed-good (
        apply_parsed-Ended w.session refund w.now (parse_change u json (change_command r)) db honest
          foreign)
  handle-IsTrueOf total_route w r db honest foreign =
      answer_with-IsTrueOf r.trace_id (said_totals r.merchant_id) db _
        (said_totals-good r.merchant_id)
        (totals_for-Ended w.totals_fault (parse_merchant_key r.merchant_id) db)

  -- Whatever is asked on a route that needs the API key, with a server that is honest about commits
  -- and errors of the connection that are the libraries' own: the answer is a 200 or a 201; or it is
  -- a 503 with the code `outcome_unknown` and a `Retry-After`, logged as such; or the tables are as
  -- they were before the request. So a caller who is refused with anything else knows that nothing
  -- was stored.
  pub serve-IsTrueOf :
      (s : Server) (route : Route) (w : Surroundings) (r : Request) (db : Database)
      → IsHonest w.session
      → HasForeignErrors w.session
      → IsTrueOf db (serve u json decode s route w r db)
  unfolding serve authenticated
  serve-IsTrueOf s route w r db honest foreign = elim (Bool-cases (text_eq r.api_key s.api_key)) [
    | inl e ↦ rw e (handle-IsTrueOf route w r db honest foreign)
    | inr e ↦ rw e (inr (inr refl))
  ]
