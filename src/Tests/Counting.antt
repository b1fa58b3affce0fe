-- ===== src/Tests/Counting.antt =====
-- Counting events.
use kafka_lab.Base.{All, List, [], arith, refl, ◌++◌, ◌∷◌, ◌≡◌}
use kafka_lab.Base.Int.{pos, ◌+ℤ◌, ◌-ℤ◌}
use kafka_lab.Base.Text.{codes, runes, text_eq, valid_utf8}
use kafka_lab.Base.Errors.{as_pg_error, is, is_ok}
use kafka_lab.Merchant.{Entry, is_storable_text}
use kafka_lab.Database.Transaction.{
  commit_failure, in_context_terms, merchant_terms, refused_by_data, rollback,
  rolled_back_at_commit, within_tx,
}
use kafka_lab.Database.Settlement.{Settled, within_tx-Settled}
use kafka_lab.Database.Inbox.{claim, insert_inbox}
use kafka_lab.Database.Totals.{add, authorized_column, captured_column, sum_of, upsert_total}
use kafka_lab.Database.Sums.{sum_of-upsert_total}
use kafka_lab.UseCases.Movement.{movement_of}
use kafka_lab.UseCases.RecordMovement.{count_once, record_event}
use kafka_lab.UseCases.RecordMovement.Outcome.{Delivered, record_event-Delivered}
use kafka_lab.UseCases.RecordMovement.Refines.{Refines, record_event-Refines}
use kafka_lab.UseCases.RecordMovement.Ledger.{
  IsFrom, IsLedger, deliver, deliver_all, deliver_all-IsLedger, inbox_ids,
}
use kafka_lab.Payment.Identity.{PaymentId}
use kafka_lab.UseCases.Authorize.{authorize_command}
use kafka_lab.UseCases.Agreement.{IsStamped, movement_of-authorize_command}
use kafka_lab.Tests.Fixtures.{
  busy-IsHonest, calm-IsHonest, deliveries, empty_database, moment, sale, silent, silent-IsHonest,
}

-- The first delivery waits for a lock in vain; the second is counted, but its commit goes
-- unanswered; the third finds it counted; the last is another event.
deliveries_run :
    let db = deliver_all deliveries empty_database in
    (inbox_ids db.inbox ≡ codes "8" ∷ codes "7" ∷ [])
    × (sum_of (codes "m-42") (codes "EUR") authorized_column db.totals ≡ pos 3998)
    × (sum_of (codes "m-42") (codes "EUR") captured_column db.totals ≡ pos 0)
unfolding deliver_all deliver record_event count_once claim add sum_of upsert_total ◌+ℤ◌ ◌-ℤ◌ is
    refused_by_data as_pg_error text_eq in_context_terms commit_failure rolled_back_at_commit
    rollback valid_utf8 runes
deliveries_run = (refl, refl, refl)

nothing_counted : IsLedger [] empty_database
unfolding sum_of
nothing_counted = record { claimed = refl; distinct = tt; summed = λ m c col. refl; one_row = tt }

deliver_all-IsLedger_example :
    (new : List Entry) × IsLedger (new ++ []) (deliver_all deliveries empty_database)
    × All (IsFrom deliveries) new
deliver_all-IsLedger_example =
    deliver_all-IsLedger deliveries empty_database []
      (busy-IsHonest, (silent-IsHonest, (calm-IsHonest, (calm-IsHonest, tt)))) nothing_counted

record_event-Delivered_example :
    Delivered sale
      (moment 2001)
      empty_database
      (record_event silent sale (moment 2001) empty_database)
record_event-Delivered_example =
    record_event-Delivered silent sale (moment 2001) empty_database silent-IsHonest

within_tx-Settled_example :
    Settled
      (insert_inbox (codes "7") (moment 5) empty_database)
      empty_database
      (within_tx merchant_terms silent (λ ctx. insert_inbox (codes "7") (moment 5)) empty_database)
within_tx-Settled_example =
    within_tx-Settled merchant_terms silent (λ ctx. insert_inbox (codes "7") (moment 5))
      empty_database silent-IsHonest

sum_of-upsert_total_example :
    sum_of
      (codes "m-42")
      (codes "JPY")
      captured_column
      (upsert_total (codes "m-42") (codes "EUR") captured_column (pos 5) (moment 5) [])
    ≡ pos 0
unfolding sum_of upsert_total text_eq
sum_of-upsert_total_example =
    sum_of-upsert_total (codes "m-42") (codes "EUR") captured_column (pos 5) (moment 5) []
      (codes "m-42") (codes "JPY") captured_column

sale-IsStamped : IsStamped sale
unfolding is_storable_text valid_utf8
sale-IsStamped = record {
  kind_low = omega arith;
  kind_high = omega arith;
  id_some = refl;
  id_short = omega arith;
  id_text = refl;
}

abbrev first_id : PaymentId
first_id = record { value = 1 }

movement_of-authorize_command_example :
    is_ok (movement_of sale)
    ≡ is_ok (
        authorize_command
          (record {
            merchant_id = codes "m-42";
            amount_minor = pos 1999;
            currency = codes "EUR";
            idempotency_key = codes "k";
          })
          (moment 5)
          (first_id))
movement_of-authorize_command_example =
    movement_of-authorize_command sale (codes "k") (moment 5) (first_id) sale-IsStamped

record_event-Refines_example :
    Refines sale (moment 2001) [] (record_event silent sale (moment 2001) empty_database)
record_event-Refines_example =
    record_event-Refines silent sale (moment 2001) [] empty_database silent-IsHonest nothing_counted
