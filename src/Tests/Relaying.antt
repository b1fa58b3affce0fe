-- ===== src/Tests/Relaying.antt =====
-- The outbox, the relay and a replayed key at concrete inputs.
use kafka_lab.Base.{List, [], arith, false, if◌then◌else◌, none, refl, ◌==◌, ◌∷◌, ◌≡◌}
use kafka_lab.Base.Int.{pos}
use kafka_lab.Base.Text.{codes, runes, text_eq, valid_utf8}
use kafka_lab.Base.Errors.{deadline_exceeded, ok}
use kafka_lab.Payment.Money.{new_money, parse_currency, parse_money}
use kafka_lab.Payment.Identity.{MerchantId, is_storable_text, parse_id, parse_merchant_id}
use kafka_lab.Payment.Aggregate.{authorize, capture, new_history, reconstitute, replays}
use kafka_lab.Database.{Database, PaymentRow}
use kafka_lab.Database.Transaction.{begin, commit, finish, run_tx, storage_within_tx, within_tx}
use kafka_lab.Database.Payments.{
  create_or_get, fetch_row, insert_row_of, parse_stored_status, rebuilt, stored_status,
  stored_under, to_domain,
}
use kafka_lab.UseCases.Authorize.{
  AuthorizeCommand, answer_of, authorize_command, execute_authorize, store_authorized, store_once,
}
use kafka_lab.UseCases.Authorize.Replay.{
  AnswersAs, amount_of, execute_authorize-AnswersAs, merchant_of,
}
use kafka_lab.UseCases.Relay.{Weather, run, sweep}
use kafka_lab.UseCases.Relay.Marking.{Announces}
use kafka_lab.UseCases.Change.{ChangeCommand, apply_change, parse_change}
use kafka_lab.UseCases.Change.Absent.{Refused, apply_change-Refused}
use kafka_lab.UseCases.Relay.Taking.{Takes, sweep-Takes}
use kafka_lab.UseCases.Relay.Sweeping.{run-Announces}
use kafka_lab.Kafka.Detours.{acked, unacked}
use kafka_lab.Tests.Fixtures.{calm, empty_database, moment, silent}
use kafka_lab.Tests.Samples.{small_json, small_relay, small_uuids, waiting, weather_of}

abbrev stored_row : PaymentRow
stored_row = record {
  id = 1 ∷ [];
  merchant_id = codes "m-42";
  amount_minor = pos 1999;
  currency = codes "EUR";
  status = codes "authorized";
  idempotency_key = codes "k";
  authorized_at = moment 1000;
  captured_at = none;
  refunded_at = none;
}

abbrev busy_database : Database
busy_database = record empty_database {
  payments = stored_row ∷ [];
  outbox = waiting 1 ∷ waiting 2 ∷ waiting 3 ∷ [];
  next_id = 4;
}

-- A broker that stores the first record only, a commit whose answer is lost, and a calm sweep.
abbrev bad_and_good : List Weather
bad_and_good =
    weather_of calm (λ i. if i == 0 then acked else unacked (deadline_exceeded ∷ []) false)
    ∷ weather_of silent (λ i. acked)
    ∷ weather_of calm (λ i. acked)
    ∷ []

busy_database-Announces : Announces small_relay busy_database []
busy_database-Announces = record { ids = omega arith; announced = ground arith }

run-Announces_example :
    Announces small_relay
      (run small_relay bad_and_good (busy_database, [])).0
      (run small_relay bad_and_good (busy_database, [])).1
run-Announces_example =
    run-Announces small_relay bad_and_good busy_database [] busy_database-Announces

abbrev again : AuthorizeCommand
again = record {
  merchant_id = codes "m-42";
  amount_minor = pos 1999;
  currency = codes "EUR";
  idempotency_key = codes "k";
}

-- The replayed command answers with the payment that is stored.
again_run :
    (execute_authorize small_uuids small_json calm again
      (moment 3000)
      (record { value = 9 })
      busy_database).0
    ≡ ok (record { payment_id = 1 ∷ []; stored = false })
unfolding execute_authorize store_authorized authorize_command parse_merchant_id parse_money
    parse_currency new_money authorize within_tx storage_within_tx begin run_tx finish commit
    store_once create_or_get stored_status insert_row_of stored_under fetch_row rebuilt to_domain
    parse_id parse_stored_status reconstitute new_history answer_of replays text_eq is_storable_text
    valid_utf8 runes
again_run = refl

execute_authorize-AnswersAs_example :
    AnswersAs small_uuids small_json busy_database
      (merchant_of again)
      again.idempotency_key
      (amount_of again)
      (execute_authorize small_uuids small_json calm again
        (moment 3000)
        (record { value = 9 })
        busy_database)
unfolding text_eq
execute_authorize-AnswersAs_example =
    execute_authorize-AnswersAs small_uuids small_json calm again (moment 3000)
      (record { value = 9 }) busy_database refl

-- The stored payment, asked for by another merchant.
abbrev foreign : ChangeCommand
foreign = record { merchant_id = codes "m-43"; payment_id = 1 ∷ [] }

abbrev stranger : MerchantId
stranger = record { value = codes "m-43" }

apply_change-Refused_example :
    Refused busy_database
      (apply_change small_uuids small_json silent capture foreign (moment 3000) busy_database)
unfolding parse_change parse_merchant_id parse_id is_storable_text valid_utf8 text_eq
apply_change-Refused_example =
    apply_change-Refused small_uuids small_json silent capture foreign (moment 3000) busy_database
      (record { value = 1 }) stranger refl refl

-- The second row is held by others.
sweep-Takes_example :
    let w = weather_of calm (λ i. acked) in
    Takes small_relay w busy_database (sweep small_relay w (busy_database, [])).0
sweep-Takes_example =
    sweep-Takes small_relay (weather_of calm (λ i. acked)) busy_database [] (omega arith)
