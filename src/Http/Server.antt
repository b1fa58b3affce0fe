-- ===== src/Http/Server.antt =====
-- internal/interfaces/http/server.go: the server, its answers and who may ask.
pub mod Fields
use kafka_lab.Base.{
  Bool, List, Option, [], if◌then◌else◌, leb, none, not, some, ℕ, ◌&&◌, ◌*◌, ◌++◌, ◌==◌, ◌^◌, ◌∷◌,
}
use kafka_lab.Base.Int.{ℤ}
use kafka_lab.Base.Text.{Text, codes, is_empty, text_eq}
use kafka_lab.Base.Errors.{
  Error, Result, api_key_required, canceled, is, ok, outcome_unknown, require, use_case_required,
  ◌>>=◌, ◌>>◌,
}
use kafka_lab.Kafka.Headers.{itoa}
use kafka_lab.Http.Refusals.{
  Failure, refusal_for, status_internal_server_error, status_ok, status_service_unavailable,
  status_unauthorized,
}

-- `currencyTotal`
pub record CurrencyTotal : Type 0 where
  pub currency : Text
  pub authorized_minor : ℤ
  pub captured_minor : ℤ
  pub refunded_minor : ℤ

-- What is encoded as the JSON of an answer: a `failure`, an `authorizeResponse`, a `changeResponse`
-- or a `totalResponse`; the probes answer without a body.
pub data Body : Type 0 where
  no_body : Body
  failure_body : Failure → Body
  authorize_response : Text → Body
  change_response : Text → Text → Body
  total_response : Text → List CurrencyTotal → Body

-- A header of an answer, under its canonical name.
abbrev pub Field : Type 0
Field = Text × Text

pub record Response : Type 0 where
  pub status : ℕ
  pub fields : List Field
  pub body : Body

-- What the handlers read of a request: two of its headers, its path values, its body, and the id of
-- the trace that it runs in.
pub record Request : Type 0 where
  pub api_key : Text
  pub idempotency_key : Text
  pub merchant_id : Text
  pub payment_id : Text
  pub body : Text
  pub trace_id : Text

-- `UseCases`, by which of them are there, and `Server`.
pub record UseCases : Type 0 where
  pub has_authorize : Bool
  pub has_capture : Bool
  pub has_refund : Bool
  pub has_totals : Bool

pub record Server : Type 0 where
  pub use_cases : UseCases
  pub api_key : Text

abbrev pub complete : UseCases → Bool
complete u = u.has_authorize && u.has_capture && u.has_refund && u.has_totals

-- `NewServer`
unfoldable pub new_server : UseCases → Text → Result Server
new_server use_cases api_key = do
  require (not (is_empty api_key)) api_key_required
  require (complete use_cases) use_case_required
  ok (record { use_cases = use_cases; api_key = api_key })

abbrev pub max_request_bytes : ℕ
max_request_bytes = 4 * 2 ^ 10

abbrev pub status_client_closed_request : ℕ
status_client_closed_request = 499

abbrev pub retry_after_seconds : ℕ
retry_after_seconds = 10

abbrev pub retry_after : Text
retry_after = codes "Retry-After"

-- The fields of an answer but `X-Trace-Id` and `Retry-After`.
abbrev pub fixed_fields : List Field
fixed_fields =
    (codes "Content-Type", codes "application/json")
    ∷ (codes "X-Content-Type-Options", codes "nosniff")
    ∷ (codes "Cache-Control", codes "no-store")
    ∷ []

abbrev pub trace_fields : Text → List Field
trace_fields trace_id = if is_empty trace_id then [] else (codes "X-Trace-Id", trace_id) ∷ []

abbrev pub retry_fields : ℕ → List Field
retry_fields status =
    if status == status_service_unavailable
    then (retry_after, itoa retry_after_seconds) ∷ []
    else []

-- `respond`; the names of the fields are different.
unfoldable pub respond : Text → ℕ → Body → Response
unfolding itoa
respond trace_id status body = record {
  status = status;
  fields = trace_fields trace_id ++ (fixed_fields ++ retry_fields status);
  body = body;
}

-- What `refuse` logs.
pub data Logged : Type 0 where
  nothing_logged : Logged
  outcome_unknown_logged : Error → Logged
  caller_gone_logged : Error → Logged
  failure_logged : Error → Logged

unfoldable pub logged_for : Error → ℕ → Logged
unfolding is
logged_for e status =
    if is e outcome_unknown
    then outcome_unknown_logged e
    else if is e canceled
    then caller_gone_logged e
    else if leb status_internal_server_error status
    then failure_logged e
    else nothing_logged

-- An answer, and what was logged of it.
abbrev pub Answer : Type 0
Answer = Response × Logged

-- `refuse`
unfoldable pub refuse : Text → Error → Answer
unfolding refusal_for logged_for respond
refuse trace_id e =
    let (status, failure) = refusal_for e in
    (respond trace_id status (failure_body failure), logged_for e status)

abbrev pub unauthorized : Failure
unauthorized = record {
  code = codes "unauthorized";
  message = codes "a valid X-API-Key header is required";
}

-- `authenticated`: `subtle.ConstantTimeCompare` is equality of bytes.
unfoldable pub authenticated :
    {D : Type 0} → Server → (Request → D → Answer × D) → Request → D → Answer × D
unfolding respond
authenticated s next r d =
    if not (text_eq r.api_key s.api_key)
    then ((respond r.trace_id status_unauthorized (failure_body unauthorized), nothing_logged), d)
    else next r d

-- `ready`, by what the ping of the database came to; a probe's answer has no fields of its own.
unfoldable pub ready : Option Error → Response
ready none = record { status = status_ok; fields = []; body = no_body }
ready (some e) = record { status = status_service_unavailable; fields = []; body = no_body }

abbrev pub healthy : Response
healthy = record { status = status_ok; fields = []; body = no_body }

-- `reportedStatus`, by whether the request's context was canceled.
unfoldable pub reported_status : Bool → ℕ → ℕ
reported_status was_canceled written =
    if leb status_internal_server_error written && was_canceled
    then status_client_closed_request
    else written
