-- ===== src/Http/Refusals/Statuses.antt =====
-- The statuses of what the domain refuses (internal/interfaces/http/errors.go over
-- internal/domain/payment and the rows of internal/infrastructure/postgres/payments.go).
use kafka_lab.Base.{
  Bool, Bool-cases, List, [], all, any, ap, arith, false, find, if◌then◌else◌, inl, inr, refl, true,
  ℕ, ◌&&◌, ◌==◌, ◌∙◌, ◌∷◌, ◌≡◌,
}
use kafka_lab.Base.Int.{ℤ}
use kafka_lab.Base.Text.{Text}
use kafka_lab.Base.Time.{Time}
use kafka_lab.Base.Errors.{
  Error, Result, Sentinel, amount_negative, amount_not_positive, amount_too_large, currency_format,
  err, is, merchant_invalid, merchant_required, merchant_too_long, ok, require, tag, ◌>>=◌, ◌>>◌,
}
use kafka_lab.Payment.Money.{Money, new_money, parse_currency, parse_money}
use kafka_lab.Payment.Identity.{MerchantId, PaymentId, parse_merchant_id}
use kafka_lab.Payment.Aggregate.{authorize}
use kafka_lab.UseCases.Authorize.{AuthorizeCommand, authorize_command}
use kafka_lab.Http.Refusals.{
  Refusal, refusal_for, refusals, status_bad_request, status_conflict, status_internal_server_error,
  status_not_found, status_service_unavailable, told_as,
}

abbrev refusal_statuses : List ℕ
refusal_statuses =
    status_bad_request ∷ status_not_found ∷ status_conflict ∷ status_internal_server_error
    ∷ status_service_unavailable ∷ []

abbrev pub is_refusal_status : ℕ → Bool
is_refusal_status status = any (λ s. s == status) refusal_statuses

pub and_left : (a b : Bool) → (a && b) ≡ true → a ≡ true
and_left a b h = ground arith

pub and_right : (a b : Bool) → (a && b) ≡ true → b ≡ true
and_right a b h = ground arith

told_from :
    (e : Error) (rows : List Refusal)
    → all (λ (row : Refusal). is_refusal_status row.status) rows ≡ true
    → is_refusal_status (told_as (find (λ (r : Refusal). is e r.sentinel) rows)).0 ≡ true
unfolding told_as
told_from e [] h = refl
told_from e (row ∷ rows) h = elim (Bool-cases (is e row.sentinel)) [
  | inl found ↦ rw found (and_left _ _ h)
  | inr missing ↦ rw missing (told_from e rows (and_right _ _ h))
]

-- Every error is told as a 400, 404, 409, 500 or 503.
pub refusal_for-status : (e : Error) → is_refusal_status (refusal_for e).0 ≡ true
unfolding refusal_for refusals
refusal_for-status e = told_from e refusals refl

-- The refusals of the domain of payments, each on its own.
abbrev Refuses : Error → Type 0
Refuses e = (refusal_for e).0 ≡ status_bad_request

-- If it is an error, then it is told as this status.
pub record TellsAs {A : Type 0} (status : ℕ) (r : Result A) : Type 0 where
  pub told : (e : Error) → r ≡ err e → (refusal_for e).0 ≡ status

err_inj : {A : Type 0} {e e' : Error} → Path (Result A) (err e) (err e') → e' ≡ e
err_inj q = cc

pub ok-TellsAs : {A : Type 0} (status : ℕ) (a : A) → TellsAs status (ok a)
ok-TellsAs status a = record { told = λ e h. ground arith }

pub err-TellsAs :
    {A : Type 0} (status : ℕ) (e : Error)
    → (refusal_for e).0 ≡ status
    → TellsAs {A = A} status (err e)
err-TellsAs status e h = record { told = λ e' q. ap (λ x. (refusal_for x).0) (err_inj q) ∙ h }

require-TellsAs :
    (status : ℕ) (test : Bool) (s : Sentinel)
    → (refusal_for (s ∷ [])).0 ≡ status
    → TellsAs status (require test s)
require-TellsAs status true s h = ok-TellsAs status tt
require-TellsAs status false s h = err-TellsAs status (s ∷ []) h

pub >>=-TellsAs :
    {A B : Type 0} (status : ℕ) (r : Result A) (f : A → Result B)
    → TellsAs status r
    → ((a : A) → TellsAs status (f a))
    → TellsAs status (r >>= f)
>>=-TellsAs status (ok a) f h later = later a
>>=-TellsAs status (err e) f h later = err-TellsAs status e (h.told e refl)

pub if-TellsAs :
    {A : Type 0} (status : ℕ) (test : Bool) (r r' : Result A)
    → TellsAs status r
    → TellsAs status r'
    → TellsAs status (if test then r else r')
if-TellsAs status true r r' h h' = h
if-TellsAs status false r r' h h' = h'

-- A bad request for each of the sentinels that the domain refuses a command with.
bad_request :
    (test : Bool) (s : Sentinel) {B : Type 0} (rest : Result B)
    → (refusal_for (s ∷ [])).0 ≡ status_bad_request
    → TellsAs status_bad_request rest
    → TellsAs status_bad_request (require test s >> rest)
bad_request test s rest h later =
    >>=-TellsAs status_bad_request (require test s) (λ _. rest)
      (require-TellsAs status_bad_request test s h) (λ _. later)

parse_merchant_id-TellsAs : (value : Text) → TellsAs status_bad_request (parse_merchant_id value)
unfolding parse_merchant_id refusal_for refusals told_as is tag
parse_merchant_id-TellsAs value = bad_request _ merchant_required _ refl (
    bad_request _ merchant_too_long _ refl (bad_request _ merchant_invalid _ refl (ok-TellsAs _ _)))

pub parse_money-TellsAs :
    (minor : ℤ) (currency : Text) → TellsAs status_bad_request (parse_money minor currency)
unfolding parse_money parse_currency new_money refusal_for refusals told_as is tag
parse_money-TellsAs minor currency =
    >>=-TellsAs status_bad_request (parse_currency currency) _
      (bad_request _ currency_format _ refl (bad_request _ currency_format _ refl (ok-TellsAs _ _)))
      (λ code.
        bad_request _ amount_negative _ refl
          (bad_request _ currency_format _ refl (ok-TellsAs _ _)))

authorize-TellsAs :
    (id : PaymentId) (merchant : MerchantId) (amount : Money) (at : Time)
    → TellsAs status_bad_request (authorize id merchant amount at)
unfolding authorize refusal_for refusals told_as is tag
authorize-TellsAs id merchant amount at =
    bad_request _ amount_not_positive _ refl
      (bad_request _ amount_too_large _ refl (ok-TellsAs _ _))

-- Whatever the domain refuses of a command is told as a bad request.
pub authorize_command-TellsAs :
    (cmd : AuthorizeCommand) (at : Time) (id : PaymentId)
    → TellsAs status_bad_request (authorize_command cmd at id)
unfolding authorize_command
authorize_command-TellsAs cmd at id =
    >>=-TellsAs status_bad_request (parse_merchant_id cmd.merchant_id) _
      (parse_merchant_id-TellsAs cmd.merchant_id)
      (λ merchant.
        >>=-TellsAs status_bad_request (parse_money cmd.amount_minor cmd.currency) _
          (parse_money-TellsAs cmd.amount_minor cmd.currency)
          (λ amount. authorize-TellsAs id merchant amount at))
