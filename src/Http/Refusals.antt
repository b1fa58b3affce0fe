-- ===== src/Http/Refusals.antt =====
-- internal/interfaces/http/errors.go: the statuses and codes that errors are told as.
pub mod Sorting
pub mod Statuses
pub mod Corrupt
pub mod Endings
use kafka_lab.Base.{List, Option, [], find, none, some, ℕ, ◌++◌, ◌∷◌}
use kafka_lab.Base.Text.{Text, codes}
use kafka_lab.Base.Errors.{
  Error, Sentinel, amount_negative, amount_not_positive, amount_too_large, concurrent_modification,
  currency_format, deadline_exceeded, id_invalid, id_required, id_too_long, idempotency_key_invalid,
  idempotency_key_required, idempotency_key_reused, idempotency_key_too_long, invalid_transition,
  is, malformed_body, merchant_invalid, merchant_required, merchant_storage, merchant_too_long,
  not_found, outcome_unknown, payment_storage,
}
use kafka_lab.Kafka.Headers.{itoa}
use kafka_lab.UseCases.Authorize.{max_idempotency_key_length}

-- `failure`
pub record Failure : Type 0 where
  pub code : Text
  pub message : Text

pub record Refusal : Type 0 where
  pub sentinel : Sentinel
  pub status : ℕ
  pub code : Text
  pub message : Text

abbrev pub status_ok : ℕ
status_ok = 200

abbrev pub status_created : ℕ
status_created = 201

abbrev pub status_bad_request : ℕ
status_bad_request = 400

abbrev pub status_unauthorized : ℕ
status_unauthorized = 401

abbrev pub status_not_found : ℕ
status_not_found = 404

abbrev pub status_conflict : ℕ
status_conflict = 409

abbrev pub status_internal_server_error : ℕ
status_internal_server_error = 500

abbrev pub status_service_unavailable : ℕ
status_service_unavailable = 503

-- U+2014 in UTF-8.
abbrev em_dash : Text
em_dash = 0xE2 ∷ 0x80 ∷ 0x94 ∷ []

abbrev refusal : Sentinel → ℕ → Text → Text → Refusal
refusal sentinel status code message = record {
  sentinel = sentinel;
  status = status;
  code = code;
  message = message;
}

abbrev pub outcome_unknown_refusal : Refusal
outcome_unknown_refusal =
    refusal outcome_unknown status_service_unavailable (codes "outcome_unknown") (
      codes "the change may have been stored; repeat the request to find out "
      ++ em_dash
      ++ codes
          " an authorisation with the same Idempotency-Key, a capture or refund as it was: each is applied once")

unfoldable pub refusals : List Refusal
unfolding itoa
refusals =
    refusal malformed_body status_bad_request (codes "malformed_body")
      (codes "the request body is not the expected json")
    ∷ refusal idempotency_key_required status_bad_request (codes "idempotency_key_required")
        (codes "the Idempotency-Key header is required")
    ∷ refusal idempotency_key_too_long status_bad_request (codes "idempotency_key_too_long") (
        codes "the Idempotency-Key header is longer than "
        ++ itoa max_idempotency_key_length
        ++ codes " bytes")
    ∷ refusal idempotency_key_invalid status_bad_request (codes "idempotency_key_invalid")
        (codes "the Idempotency-Key header is not UTF-8 text")
    ∷ refusal idempotency_key_reused status_conflict (codes "idempotency_key_reused")
        (codes "this Idempotency-Key was used for a different payment")
    ∷ refusal merchant_required status_bad_request (codes "merchant_required")
        (codes "merchant_id is required")
    ∷ refusal merchant_too_long status_bad_request (codes "merchant_too_long")
        (codes "merchant_id is longer than allowed")
    ∷ refusal currency_format status_bad_request (codes "currency_invalid")
        (codes "currency must be three upper-case letters")
    ∷ refusal amount_negative status_bad_request (codes "amount_invalid")
        (codes "amount_minor must be a positive number of minor units")
    ∷ refusal amount_not_positive status_bad_request (codes "amount_invalid")
        (codes "amount_minor must be a positive number of minor units")
    ∷ refusal id_required status_bad_request (codes "merchant_invalid")
        (codes "the merchant id is not one this service can hold")
    ∷ refusal id_too_long status_bad_request (codes "merchant_invalid")
        (codes "the merchant id is not one this service can hold")
    ∷ refusal amount_too_large status_bad_request (codes "amount_too_large")
        (codes "amount_minor is larger than one payment may be")
    ∷ refusal merchant_invalid status_bad_request (codes "merchant_invalid")
        (codes "the merchant id is not one this service can hold")
    ∷ refusal id_invalid status_bad_request (codes "merchant_invalid")
        (codes "the merchant id is not one this service can hold")
    ∷ refusal not_found status_not_found (codes "payment_not_found")
        (codes "this merchant has no payment with that id")
    ∷ refusal invalid_transition status_conflict (codes "invalid_transition") (
        codes
          "the payment is not in a state that allows this; only an authorised payment can be captured and only a captured one refunded")
    ∷ refusal concurrent_modification status_conflict (codes "payment_changed")
        (codes "the payment changed while this request was handled; repeat the request")
    ∷ outcome_unknown_refusal
    ∷ refusal payment_storage status_service_unavailable (codes "storage_unavailable") (
        codes "the service cannot reach its storage; repeat the request "
        ++ em_dash
        ++ codes " an authorisation with the same Idempotency-Key, a capture or refund as it was")
    ∷ refusal merchant_storage status_service_unavailable (codes "storage_unavailable")
        (codes "the service cannot reach its storage")
    ∷ refusal deadline_exceeded status_service_unavailable (codes "timeout") (
        codes "the request did not finish in time; repeat it "
        ++ em_dash
        ++ codes " an authorisation with the same Idempotency-Key, a capture or refund as it was")
    ∷ []

abbrev pub failure_of : Refusal → ℕ × Failure
failure_of r = (r.status, record { code = r.code; message = r.message })

-- What an error is told as that the table does not know.
abbrev pub internal_failure : ℕ × Failure
internal_failure = (
  status_internal_server_error,
  record { code = codes "internal"; message = codes "the request could not be completed" },
)

-- The row that an error matches, if any, as the caller is told.
unfoldable pub told_as : Option Refusal → ℕ × Failure
told_as none = internal_failure
told_as (some row) = failure_of row

-- `refusalFor`: the first sentinel that the error matches decides.
unfoldable pub refusal_for : Error → ℕ × Failure
unfolding is refusals told_as
refusal_for e = told_as (find (λ (r : Refusal). is e r.sentinel) refusals)
