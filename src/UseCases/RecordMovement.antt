-- ===== src/UseCases/RecordMovement.antt =====
-- internal/application/merchants/record_movement.go: counting one event, once.
pub mod Raising
pub mod Outcome
pub mod Ledger
pub mod Refines
use kafka_lab.Base.{Bool, [], false, if◌then◌else◌, not, true, ◌∷◌}
use kafka_lab.Base.Text.{first}
use kafka_lab.Base.Time.{Time}
use kafka_lab.Base.Errors.{Result, err, join, ok, too_old_to_deduplicate, unprocessable}
use kafka_lab.Merchant.{Entry}
use kafka_lab.Retention.{can_be_deduplicated}
use kafka_lab.Database.{Action, Context, bind, pure, raise}
use kafka_lab.Database.Transaction.{Session, merchant_terms, within_tx}
use kafka_lab.Database.Inbox.{claim}
use kafka_lab.Database.Totals.{add}
use kafka_lab.UseCases.Movement.{PaymentEvent, movement_of}

-- What `countOnce` runs in its transaction.
unfoldable pub count_in : Entry → Time → Context → Action Bool
count_in entry at ctx =
    bind (claim ctx entry.event_id at)
      (λ first. if first then bind (add ctx entry at) (λ _. pure true) else pure false)

-- `countOnce`
unfoldable pub count_once : Session → Entry → Time → Action Bool
unfolding count_in within_tx
count_once s entry at = within_tx merchant_terms s (count_in entry at)

-- `record` after the domain has said what the event is; `at` is what the clock reads.
unfoldable pub record_entry : Session → PaymentEvent → Time → Result Entry → Action Bool
unfolding can_be_deduplicated
record_entry s event at (err e) = raise (join (unprocessable ∷ []) e)
record_entry s event at (ok entry) =
    if not (can_be_deduplicated event.occurred_at at)
    then raise (unprocessable ∷ too_old_to_deduplicate ∷ [])
    else count_once s entry at

-- `RecordMovement.record`
unfoldable pub record_event : Session → PaymentEvent → Time → Action Bool
unfolding movement_of record_entry
record_event s event at = record_entry s event at (movement_of event)
