-- ===== src/Base/Errors.antt =====
-- Go errors. An error is the list of what `errors.Is` and `errors.AsType` find in it: a `%w` in
-- `fmt.Errorf` keeps the list, and `errors.Join` appends two.
use Prim.Native.Nat.{ℕ}
use mathlib.Core.Path.{◌≡◌, refl}
use mathlib.Core.Bool.{Bool, true, false, ◌||◌}
use mathlib.Core.Option.{Option, none, some}
use mathlib.Core.List.{List, [], ◌∷◌, ◌++◌}
use kafka_lab.Base.Tests.{◌==◌}
use kafka_lab.Base.Lists.{any, any-append}
use kafka_lab.Base.Text.{Text}

-- The sentinel errors of the program, by package, and those of the libraries that it tests for.
-- `pg_error` is pgconn's error with its severity and SQLSTATE code; `other_error` is any other.
pub data Sentinel : Type 0 where
  -- domain/payment
  currency_format amount_negative merchant_required merchant_too_long id_format : Sentinel
  amount_not_positive amount_too_large merchant_invalid payment_storage : Sentinel
  outcome_unknown corrupt not_the_same_payment not_found invalid_transition : Sentinel
  concurrent_modification : Sentinel
  -- domain/merchant
  id_required id_too_long id_invalid event_id_required event_id_too_long : Sentinel
  event_id_invalid movement_not_positive movement_too_large total_currency : Sentinel
  total_negative kind_unknown merchant_storage : Sentinel
  -- domain/retention
  inbox_horizon_too_short outbox_horizon too_old_to_deduplicate : Sentinel
  retention_storage : Sentinel
  -- application
  idempotency_key_reused idempotency_key_required idempotency_key_too_long : Sentinel
  idempotency_key_invalid unprocessable contended relay_interval relay_batch : Sentinel
  relay_timeout outbox_storage prune_batch : Sentinel
  -- infrastructure/postgres
  not_applied commit_unknown rollback_failed outside_transaction claim_limit : Sentinel
  status_unknown unknown_event no_column : Sentinel
  -- infrastructure/kafka
  dead_letter_failed retry_failed dead_letter_topic retry_topic consume_failed : Sentinel
  encode_failed publish_failed : Sentinel
  decode_failed not_a_payment_event replay_failed replay_stalled unknown_class : Sentinel
  -- interfaces/http
  malformed_body api_key_required use_case_required : Sentinel
  -- context, franz-go, pgx
  canceled deadline_exceeded client_closed group_session data_loss : Sentinel
  tx_commit_rollback tx_closed no_rows : Sentinel
  pg_error : Text → Text → Sentinel
  other_error : ℕ → Sentinel

-- A number for each sentinel, to compare them by; all errors of pgconn share one. Those of the
-- libraries come last.
unfoldable pub tag : Sentinel → ℕ
tag currency_format = 0
tag amount_negative = 1
tag merchant_required = 2
tag merchant_too_long = 3
tag id_format = 4
tag amount_not_positive = 5
tag amount_too_large = 6
tag merchant_invalid = 7
tag payment_storage = 8
tag outcome_unknown = 9
tag corrupt = 10
tag not_the_same_payment = 11
tag not_found = 12
tag invalid_transition = 13
tag concurrent_modification = 14
tag id_required = 15
tag id_too_long = 16
tag id_invalid = 17
tag event_id_required = 18
tag event_id_too_long = 19
tag event_id_invalid = 20
tag movement_not_positive = 21
tag movement_too_large = 22
tag total_currency = 23
tag total_negative = 24
tag kind_unknown = 25
tag merchant_storage = 26
tag inbox_horizon_too_short = 27
tag outbox_horizon = 28
tag too_old_to_deduplicate = 29
tag retention_storage = 30
tag idempotency_key_reused = 31
tag idempotency_key_required = 32
tag idempotency_key_too_long = 33
tag idempotency_key_invalid = 34
tag unprocessable = 35
tag contended = 36
tag relay_interval = 37
tag relay_batch = 38
tag relay_timeout = 39
tag outbox_storage = 40
tag prune_batch = 41
tag not_applied = 42
tag commit_unknown = 43
tag rollback_failed = 44
tag outside_transaction = 45
tag claim_limit = 46
tag status_unknown = 47
tag unknown_event = 48
tag no_column = 49
tag dead_letter_failed = 50
tag retry_failed = 51
tag dead_letter_topic = 52
tag retry_topic = 53
tag consume_failed = 54
tag encode_failed = 55
tag publish_failed = 56
tag decode_failed = 57
tag not_a_payment_event = 58
tag replay_failed = 59
tag replay_stalled = 60
tag unknown_class = 61
tag malformed_body = 62
tag api_key_required = 63
tag use_case_required = 64
tag canceled = 100
tag deadline_exceeded = 101
tag client_closed = 102
tag group_session = 103
tag data_loss = 104
tag tx_commit_rollback = 105
tag tx_closed = 106
tag no_rows = 107
tag (pg_error _ _) = 108
tag (other_error n) = 109

abbrev pub Error : Type 0
Error = List Sentinel

-- `errors.Is`
unfoldable pub is : Error → Sentinel → Bool
unfolding tag
is e s = any (λ x. tag x == tag s) e

abbrev pub first_of_libraries : ℕ
first_of_libraries = 100

-- `errors.Join`
abbrev pub join : Error → Error → Error
join a b = a ++ b

-- `errors.AsType[*pgconn.PgError]`: the severity and code of the first one.
unfoldable pub as_pg_error : Error → Option (Text × Text)
as_pg_error [] = none
as_pg_error (pg_error severity code ∷ e) = some (severity, code)
as_pg_error (_ ∷ e) = as_pg_error e

-- What a function of the code returns: its value, or the error that is not nil.
pub data Result {ℓ} (T : Type ℓ) : Type ℓ where
  err : Error → Result T
  ok : T → Result T

-- `if err != nil { return err }` after a call.
module _ {ℓ κ} {T : Type ℓ} {V : Type κ} where
  infixl 5 ◌>>=◌
  abbrev pub ◌>>=◌ : Result T → (T → Result V) → Result V
  answer >>= next = elim answer [ err e ↦ err e | ok value ↦ next value ]

  -- A chain that succeeds has a first step that did.
  pub >>=-eq-ok :
      (answer : Result T) (next : T → Result V) {last : V}
      → (answer >>= next) ≡ ok last
      → (value : T) × (answer ≡ ok value) × (next value ≡ ok last)
  >>=-eq-ok (err e) next chained = cc
  >>=-eq-ok (ok value) next chained = (value, refl, chained)

infixl 5 ◌>>◌
abbrev pub ◌>>◌ {κ} : {V : Type κ} → Result (Unit {0}) → Result V → Result V
check >> rest = check >>= λ nothing. rest

-- `if !test { return error }`
abbrev pub require : Bool → Sentinel → Result (Unit {0})
require true s = ok tt
require false s = err (s ∷ [])

-- The error, if there is one, with more sentinels in front of it.
abbrev pub wrap {ℓ} : {A : Type ℓ} → Error → Result A → Result A
wrap e (ok a) = ok a
wrap e (err e') = err (join e e')

abbrev pub is_ok {ℓ} : {A : Type ℓ} → Result A → Bool
is_ok (ok _) = true
is_ok (err _) = false

pub is-append : (a b : Error) (s : Sentinel) → is (a ++ b) s ≡ (is a s || is b s)
unfolding is
is-append a b s = any-append (λ x. tag x == tag s) a b
