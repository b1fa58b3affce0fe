-- ===== src/Http/Payments/Answers.antt =====
-- Which answers the handlers give (internal/interfaces/http/payments.go and server.go).
use kafka_lab.Base.{
  Bool-cases, List, Option, [], any, ap, arith, false, inl, inr, map, refl, true, ℕ, ◌∷◌, ◌≡◌, ◌≢◌,
  ◌⊎◌,
}
use kafka_lab.Base.Text.{Text, is_empty}
use kafka_lab.Base.Errors.{
  Error, Result, err, idempotency_key_invalid, idempotency_key_required, idempotency_key_too_long,
  is, is_ok, malformed_body, ok, tag, wrap, ◌>>=◌,
}
use kafka_lab.Outboxwire.{Json}
use kafka_lab.Merchant.{Entry, Total}
use kafka_lab.Payment.Identity.{Uuids, id_string}
use kafka_lab.Payment.Aggregate.{Payment}
use kafka_lab.Payment.Money.{money_eq}
use kafka_lab.Database.{Database}
use kafka_lab.Database.Taken.{IsUnder}
use kafka_lab.Database.Transaction.{Session}
use kafka_lab.Database.Payments.{under_key}
use kafka_lab.UseCases.Authorize.{
  AuthorizeCommand, AuthorizeResult, authorize_command, execute_authorize, parse_idempotency_key,
  store_authorized,
}
use kafka_lab.UseCases.Authorize.Replay.{
  AnswersAs, amount_of, execute_authorize-AnswersAs, merchant_of,
}
use kafka_lab.UseCases.ReadTotals.Answer.{Answered, IsAnswer, execute_read-Answered}
use kafka_lab.UseCases.RecordMovement.Ledger.{IsLedger}
use kafka_lab.Http.Refusals.{
  refusal_for, refusals, status_bad_request, status_created, status_unauthorized, told_as,
}
use kafka_lab.Http.Refusals.Statuses.{
  >>=-TellsAs, TellsAs, authorize_command-TellsAs, err-TellsAs, if-TellsAs, is_refusal_status,
  ok-TellsAs, refusal_for-status,
}
use kafka_lab.Http.Server.{
  Answer, Body, CurrencyTotal, Request, authorize_response, max_request_bytes, refuse, respond,
  total_response,
}
use kafka_lab.Http.Payments.{
  DecodeJson, Surroundings, answer_with, authorize_payment, authorize_read, currency_total,
  merchant_total, read_authorize_command, said_authorized, said_totals,
}

parse_idempotency_key-TellsAs :
    (raw : Text) → TellsAs status_bad_request (parse_idempotency_key raw)
unfolding parse_idempotency_key refusal_for refusals told_as is tag
parse_idempotency_key-TellsAs raw =
    if-TellsAs status_bad_request (is_empty raw) _ _
      (err-TellsAs status_bad_request (idempotency_key_required ∷ []) refl)
      (if-TellsAs status_bad_request _ _ _
        (err-TellsAs status_bad_request (idempotency_key_too_long ∷ []) refl)
        (if-TellsAs status_bad_request _ _ _
          (err-TellsAs status_bad_request (idempotency_key_invalid ∷ []) refl)
          (ok-TellsAs status_bad_request raw)))

malformed-TellsAs :
    {A : Type 0} (r : Result A) → TellsAs status_bad_request (wrap (malformed_body ∷ []) r)
unfolding refusal_for refusals told_as is tag
malformed-TellsAs (ok a) = ok-TellsAs status_bad_request a
malformed-TellsAs (err e) = err-TellsAs status_bad_request (malformed_body ∷ e) refl

read_authorize_command-TellsAs :
    (decode : DecodeJson) (r : Request)
    → TellsAs status_bad_request (read_authorize_command decode r)
unfolding read_authorize_command
read_authorize_command-TellsAs decode r =
    >>=-TellsAs status_bad_request (wrap (malformed_body ∷ []) (decode max_request_bytes r.body)) _
      (malformed-TellsAs (decode max_request_bytes r.body))
      (λ request.
        >>=-TellsAs status_bad_request (parse_idempotency_key r.idempotency_key) _
          (parse_idempotency_key-TellsAs r.idempotency_key)
          (λ key. ok-TellsAs status_bad_request _))

-- An answer of this status, with the tables as they were.
abbrev pub Refuses : ℕ → Database → Answer × Database → Type 0
Refuses status db (answer, db') = (answer.0.status ≡ status) × (db' ≡ db)

refused-Refuses :
    {A : Type 0} (status : ℕ) (trace_id : Text) (said : A → ℕ × Body) (e : Error) (db : Database)
    → (refusal_for e).0 ≡ status
    → Refuses status db (answer_with trace_id said (err e, db))
unfolding answer_with refuse respond
refused-Refuses status trace_id said e db h = (h, refl)

module _ (u : Uuids) (json : Json) (decode : DecodeJson) where
  -- The payment that a request asks for, if it is one.
  abbrev pub asked_payment : Surroundings → Request → Result Payment
  asked_payment w r =
      read_authorize_command decode r >>= λ cmd. authorize_command cmd w.now w.new_id

  stored-Refuses :
      (trace_id : Text) (s : Session) (cmd : AuthorizeCommand) (db : Database)
      (parsed : Result Payment)
      → TellsAs status_bad_request parsed
      → is_ok parsed ≡ false
      → Refuses status_bad_request db
          (answer_with trace_id said_authorized (store_authorized u json s cmd parsed db))
  unfolding store_authorized
  stored-Refuses trace_id s cmd db (ok p) t h = cc
  stored-Refuses trace_id s cmd db (err e) t h =
      refused-Refuses status_bad_request trace_id said_authorized e db (t.told e refl)

  read-Refuses :
      (w : Surroundings) (trace_id : Text) (db : Database) (read : Result AuthorizeCommand)
      → TellsAs status_bad_request read
      → is_ok (read >>= λ cmd. authorize_command cmd w.now w.new_id) ≡ false
      → Refuses status_bad_request db
          (answer_with trace_id said_authorized (authorize_read u json decode w read db))
  unfolding authorize_read execute_authorize refusal_for refusals told_as is tag
  read-Refuses w trace_id db (err e) t h =
      refused-Refuses status_bad_request trace_id said_authorized e db (t.told e refl)
  read-Refuses w trace_id db (ok cmd) t h = elim (Bool-cases (is_empty cmd.idempotency_key)) [
    | inl e ↦ rw e (
        refused-Refuses status_bad_request trace_id said_authorized (idempotency_key_required ∷ [])
          db refl)
    | inr e ↦ rw e (
        stored-Refuses trace_id w.session cmd db (authorize_command cmd w.now w.new_id)
          (authorize_command-TellsAs cmd w.now w.new_id) h)
  ]

  -- A request for a payment that cannot be read, whose idempotency key is none, or whose command the
  -- domain refuses, is answered with 400, and the tables are as they were.
  pub authorize_payment-Refuses :
      (w : Surroundings) (r : Request) (db : Database)
      → is_ok (asked_payment w r) ≡ false
      → Refuses status_bad_request db (authorize_payment u json decode w r db)
  unfolding authorize_payment
  authorize_payment-Refuses w r db h =
      read-Refuses w r.trace_id db (read_authorize_command decode r)
        (read_authorize_command-TellsAs decode r) h

-- What a request for a payment under a key that is taken is answered: not 201, with the tables as
-- they were; 200 names a payment that is stored under the key, with the amount that was asked for.
abbrev pub AnswersTaken :
    (u : Uuids) → Json → Database → AuthorizeCommand → Answer × Database → Type 0
AnswersTaken u json db cmd (answer, db') =
    (db' ≡ db)
    × (answer.0.status ≢ status_created)
    × ((is_refusal_status answer.0.status ≡ true)
        ⊎ ((stored : Payment) × IsUnder u json db (merchant_of cmd) cmd.idempotency_key stored
            × (answer.0.body ≡ authorize_response (id_string u stored.id))
            × (money_eq (amount_of cmd) stored.amount ≡ true)))

refusal_not_created : (e : Error) → (refusal_for e).0 ≢ status_created
refusal_not_created e h = ground (arith, refusal_for-status e)

taken-AnswersTaken :
    (u : Uuids) (json : Json) (trace_id : Text) (cmd : AuthorizeCommand) (db : Database)
    (result : Result AuthorizeResult × Database)
    → AnswersAs u json db (merchant_of cmd) cmd.idempotency_key (amount_of cmd) result
    → AnswersTaken u json db cmd (answer_with trace_id said_authorized result)
unfolding answer_with refuse respond said_authorized
taken-AnswersTaken u json trace_id cmd db (err e, db') h =
    (h, refusal_not_created e, inl (refusal_for-status e))
taken-AnswersTaken u json trace_id cmd db (ok answer, db')
      (same, old, (stored, under, named, amount)) =
    (same, rw old (λ q. ground arith), inr (stored, under, ap authorize_response named, amount))

-- A request that can be read, under an idempotency key that already has a payment of its merchant,
-- changes nothing in the tables and is never answered with 201. It is told as a refusal, or it is
-- answered with the id of the payment under the key, whose amount is the one asked for.
pub authorize_payment-AnswersTaken :
    (u : Uuids) (json : Json) (decode : DecodeJson) (w : Surroundings) (r : Request) (db : Database)
    (cmd : AuthorizeCommand)
    → read_authorize_command decode r ≡ ok cmd
    → any (under_key cmd.merchant_id cmd.idempotency_key) db.payments ≡ true
    → AnswersTaken u json db cmd (authorize_payment u json decode w r db)
unfolding authorize_payment authorize_read
authorize_payment-AnswersTaken u json decode w r db cmd read taken = rw read (
    taken-AnswersTaken u json r.trace_id cmd db _
      (execute_authorize-AnswersAs u json w.session cmd w.now w.new_id db taken))

-- Each row shows one total: its currency, and the three sums under their own names.
abbrev pub Shows : List CurrencyTotal → List Total → Type 0
Shows [] [] = Unit {0}
Shows (row ∷ rows) (t ∷ ts) =
    ((row.currency ≡ t.currency.code)
      × (row.authorized_minor ≡ t.authorized)
      × (row.captured_minor ≡ t.captured)
      × (row.refunded_minor ≡ t.refunded))
    × Shows rows ts
Shows [] (t ∷ ts) = ⊥
Shows (row ∷ rows) [] = ⊥

-- What a request for a merchant's totals is answered over the sums of a log.
abbrev pub ShowsTotals : List Entry → Text → Database → Answer × Database → Type 0
ShowsTotals log m db (answer, db') =
    (db' ≡ db)
    × ((is_refusal_status answer.0.status ≡ true)
        ⊎ ((ts : List Total) × (rows : List CurrencyTotal) × (answer.0.status ≡ 200)
            × (answer.0.body ≡ total_response m rows)
            × Shows rows ts
            × IsAnswer log db m ts))

currency_total-Shows : (ts : List Total) → Shows (map currency_total ts) ts
currency_total-Shows [] = tt
currency_total-Shows (t ∷ ts) = ((refl, refl, refl, refl), currency_total-Shows ts)

Answered-ShowsTotals :
    (trace_id : Text) (log : List Entry) (fault : Option Error) (m : Text) (db : Database)
    (result : Result (List Total) × Database)
    → Answered log fault m db result
    → ShowsTotals log m db (answer_with trace_id (said_totals m) result)
unfolding answer_with refuse respond said_totals
Answered-ShowsTotals trace_id log fault m db (err e, db') h = (h.0, inl (refusal_for-status e))
Answered-ShowsTotals trace_id log fault m db (ok ts, db') h =
    (h.0, inr (ts, map currency_total ts, refl, refl, currency_total-Shows ts, h.1))

-- If the tables stand for a log of counted events, a request for a merchant's totals leaves them as
-- they are, and is told as a refusal or answered with 200 and a row for each total, its authorised,
-- captured and refunded sums under their own names. The sums are those over the log's entries of the
-- merchant, in order of currency, one for every currency that the merchant has a row
-- in.
pub merchant_total-ShowsTotals :
    (u : Uuids) (json : Json) (decode : DecodeJson) (log : List Entry) (w : Surroundings)
    (r : Request) (db : Database)
    → IsLedger log db
    → ShowsTotals log r.merchant_id db (merchant_total u json decode w r db)
unfolding merchant_total
merchant_total-ShowsTotals u json decode log w r db l =
    Answered-ShowsTotals r.trace_id log w.totals_fault r.merchant_id db _
      (execute_read-Answered log w.totals_fault r.merchant_id db l)

pub not_unauthorized : (e : Error) → (refusal_for e).0 ≢ status_unauthorized
not_unauthorized e h = ground (arith, refusal_for-status e)
