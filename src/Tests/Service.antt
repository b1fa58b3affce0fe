-- ===== src/Tests/Service.antt =====
-- The service at its interface.
use mathlib.Core.Path.{subst}
use kafka_lab.Base.{Bool, [], ap, arith, if◌then◌else◌, none, refl, true, ◌∷◌, ◌≡◌, ◌≢◌, ◌⊎◌}
use kafka_lab.Base.Int.{pos, ◌+ℤ◌}
use kafka_lab.Base.Text.{Text, codes, is_empty, runes, text_eq, valid_utf8}
use kafka_lab.Base.Errors.{Error, corrupt, currency_format, err, ok, other_error, tag}
use kafka_lab.Payment.Money.{new_money, parse_currency, parse_money}
use kafka_lab.Payment.Identity.{is_storable_text, parse_id, parse_merchant_id}
use kafka_lab.Payment.Aggregate.{Payment, Status, authorize, new_history}
use kafka_lab.Merchant.{Entry, kind_authorized}
use kafka_lab.Database.{Database, PaymentRow, TotalRow}
use kafka_lab.Database.Transaction.{Session, failed}
use kafka_lab.Database.Payments.{rebuilt, to_domain}
use kafka_lab.Database.Totals.{
  Column, authorized_column, captured_column, refunded_column, sum_columns, sum_of,
}
use kafka_lab.UseCases.Authorize.{
  AuthorizeCommand, authorize_command, execute_authorize, parse_idempotency_key,
}
use kafka_lab.UseCases.Authorize.Stores.{Ends, execute_authorize-Ends}
use kafka_lab.UseCases.ReadTotals.{execute_read}
use kafka_lab.UseCases.ReadTotals.Answer.{Answered, execute_read-Answered}
use kafka_lab.UseCases.RecordMovement.Ledger.{IsLedger, sum_log}
use kafka_lab.Http.Refusals.{refusal_for, status_bad_request, status_unauthorized}
use kafka_lab.Http.Refusals.Sorting.{IsForeign}
use kafka_lab.Http.Refusals.Endings.{HasForeignErrors}
use kafka_lab.Http.Refusals.Corrupt.{rebuilt-told}
use kafka_lab.Http.Server.{Request, Server}
use kafka_lab.Http.Payments.{
  DecodeJson, Surroundings, authorize_payment, authorize_route, capture_route, merchant_total,
  read_authorize_command, serve,
}
use kafka_lab.Http.Payments.Outcome.{IsTrueOf, serve-IsTrueOf}
use kafka_lab.Http.Payments.Access.{serve_unauthorized}
use kafka_lab.Http.Payments.Answers.{
  AnswersTaken, Refuses, ShowsTotals, authorize_payment-AnswersTaken, authorize_payment-Refuses,
  merchant_total-ShowsTotals,
}
use kafka_lab.Tests.Fixtures.{calm, empty_database, failed_with, moment, silent, silent-IsHonest}
use kafka_lab.Tests.Samples.{small_json, small_uuids}

abbrev first_sale : AuthorizeCommand
first_sale = record {
  merchant_id = codes "m-42";
  amount_minor = pos 1999;
  currency = codes "EUR";
  idempotency_key = codes "k";
}

abbrev new_payment : Payment
new_payment = elim (authorize_command first_sale (moment 1000) (record { value = 1 })) [
  | ok p ↦ p
  | err e ↦ record {
    id = record { value = 0 };
    merchant = record { value = [] };
    amount = record { minor = pos 0; currency = record { code = [] } };
    status = Status.unknown;
    history = new_history (moment 0) (moment 0) (moment 0);
    events = [];
  }
]

new_payment_lem : authorize_command first_sale (moment 1000) (record { value = 1 }) ≡ ok new_payment
unfolding authorize_command parse_merchant_id parse_money parse_currency new_money authorize
    is_storable_text valid_utf8 runes
new_payment_lem = refl

-- The commit's answer is lost, although it was carried out.
execute_authorize-Ends_example :
    Ends small_uuids small_json [] new_payment (codes "k") empty_database (
      execute_authorize small_uuids small_json silent first_sale
        (moment 1000)
        (record { value = 1 })
        empty_database)
execute_authorize-Ends_example =
    execute_authorize-Ends small_uuids small_json silent first_sale (moment 1000)
      (record { value = 1 }) new_payment empty_database silent-IsHonest new_payment_lem

-- JSON that reads every body as the first sale.
abbrev small_decode : DecodeJson
small_decode limit body =
    if is_empty body
    then err (other_error 4 ∷ [])
    else ok (record { merchant_id = codes "m-42"; amount_minor = pos 1999; currency = codes "EUR" })

abbrev small_server : Server
small_server = record {
  use_cases = record {
    has_authorize = true;
    has_capture = true;
    has_refund = true;
    has_totals = true;
  };
  api_key = codes "secret";
}

abbrev asked : Request
asked = record {
  api_key = codes "secret";
  idempotency_key = codes "k";
  merchant_id = codes "m-42";
  payment_id = 1 ∷ [];
  body = codes "{}";
  trace_id = [];
}

abbrev around : Session → Surroundings
around s = record {
  session = s;
  now = moment 1000;
  new_id = record { value = 1 };
  totals_fault = none;
}

lost_commit : (e : Error) (applied : Bool) → silent.commit_answer ≡ failed e applied → IsForeign e
unfolding tag
lost_commit e applied h = subst IsForeign (ap failed_with h) (omega arith, tt)

silent-HasForeignErrors : HasForeignErrors silent
silent-HasForeignErrors = (lost_commit, λ e h. cc)

serve-IsTrueOf_example : IsTrueOf empty_database (
    serve small_uuids small_json small_decode small_server authorize_route
      (around silent)
      asked
      empty_database)
serve-IsTrueOf_example =
    serve-IsTrueOf small_uuids small_json small_decode small_server authorize_route (around silent)
      asked empty_database silent-IsHonest silent-HasForeignErrors

serve_unauthorized_example :
    let guess = record asked { api_key = codes "guess" } in
    ((guess.api_key ≡ small_server.api_key)
      × ((serve small_uuids small_json small_decode small_server capture_route
            (around calm)
            guess
            empty_database).0.0.status
          ≢ status_unauthorized))
    ⊎ ((guess.api_key ≢ small_server.api_key)
        × Refuses status_unauthorized empty_database (
            serve small_uuids small_json small_decode small_server capture_route
              (around calm)
              guess
              empty_database))
serve_unauthorized_example =
    serve_unauthorized small_uuids small_json small_decode small_server capture_route (around calm)
      (record asked { api_key = codes "guess" }) empty_database

authorize_payment-Refuses_example : Refuses status_bad_request empty_database (
    authorize_payment small_uuids small_json small_decode
      (around calm)
      (record asked { idempotency_key = [] })
      empty_database)
unfolding read_authorize_command parse_idempotency_key
authorize_payment-Refuses_example =
    authorize_payment-Refuses small_uuids small_json small_decode (around calm)
      (record asked { idempotency_key = [] }) empty_database refl

abbrev sold_row : PaymentRow
sold_row = record {
  id = 1 ∷ [];
  merchant_id = codes "m-42";
  amount_minor = pos 1999;
  currency = codes "EUR";
  status = codes "authorized";
  idempotency_key = codes "k";
  authorized_at = moment 1000;
  captured_at = none;
  refunded_at = none;
}

abbrev sold_database : Database
sold_database = record empty_database { payments = sold_row ∷ [] }

authorize_payment-AnswersTaken_example :
    AnswersTaken small_uuids small_json sold_database first_sale
      (authorize_payment small_uuids small_json small_decode (around silent) asked sold_database)
unfolding read_authorize_command parse_idempotency_key valid_utf8 text_eq
authorize_payment-AnswersTaken_example =
    authorize_payment-AnswersTaken small_uuids small_json small_decode (around silent) asked
      sold_database first_sale refl refl

-- A currency that was stored in lower case.
rebuilt-told_example : (refusal_for (corrupt ∷ currency_format ∷ [])).0 ≡ status_bad_request
unfolding rebuilt to_domain parse_id parse_money parse_currency runes
rebuilt-told_example =
    rebuilt-told small_uuids small_json (record sold_row { currency = codes "eur" })
      (record { value = codes "m-42" }) (corrupt ∷ currency_format ∷ []) refl

-- One sale, counted.
abbrev sale_entry : Entry
sale_entry = record {
  kind = kind_authorized;
  event_id = codes "7";
  merchant = record { value = codes "m-42" };
  amount = record { minor = pos 1999; currency = record { code = codes "EUR" } };
}

abbrev sale_total : TotalRow
sale_total = record {
  merchant_id = codes "m-42";
  currency = codes "EUR";
  authorized_minor = pos 1999;
  captured_minor = pos 0;
  refunded_minor = pos 0;
  updated_at = moment 2000;
}

abbrev counted_database : Database
counted_database = record empty_database {
  inbox = record { event_id = codes "7"; consumed_at = moment 2000 } ∷ [];
  totals = sale_total ∷ [];
}

sale_summed :
    (m c : Text) (col : Column)
    → sum_of m c col counted_database.totals ≡ sum_log (sale_entry ∷ []) m c col
unfolding sum_of sum_columns ◌+ℤ◌
sale_summed m c authorized_column = ground arith
sale_summed m c captured_column = ground arith
sale_summed m c refunded_column = ground arith

sale_counted : IsLedger (sale_entry ∷ []) counted_database
sale_counted = record {
  claimed = refl;
  distinct = (refl, tt);
  summed = sale_summed;
  one_row = (refl, tt);
}

execute_read-Answered_example :
    Answered
      (sale_entry ∷ [])
      none
      (codes "m-42")
      counted_database
      (execute_read none (codes "m-42") counted_database)
execute_read-Answered_example =
    execute_read-Answered (sale_entry ∷ []) none (codes "m-42") counted_database sale_counted

merchant_total-ShowsTotals_example :
    ShowsTotals
      (sale_entry ∷ [])
      (codes "m-42")
      counted_database
      (merchant_total small_uuids small_json small_decode (around calm) asked counted_database)
merchant_total-ShowsTotals_example =
    merchant_total-ShowsTotals small_uuids small_json small_decode (sale_entry ∷ []) (around calm)
      asked counted_database sale_counted
