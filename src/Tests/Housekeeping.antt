-- ===== src/Tests/Housekeeping.antt =====
-- Housekeeping, and the service as a whole.
use kafka_lab.Base.{[], arith, false, if◌then◌else◌, none, refl, some, ℕ, ◌==◌, ◌∷◌, ◌≡◌}
use kafka_lab.Base.Int.{pos, ◌+ℤ◌, ◌-ℤ◌}
use kafka_lab.Base.Text.{Text, codes}
use kafka_lab.Base.Time.{hours, time_add}
use kafka_lab.Base.Errors.{deadline_exceeded}
use kafka_lab.Retention.{Horizons, inbox_cutoff, outbox_cutoff, shortest_inbox}
use kafka_lab.Database.{Database, InboxRow}
use kafka_lab.Database.Transaction.{committed, failed}
use kafka_lab.Database.Prune.{
  consumed_before, delete_first, delete_oldest, on_its_own, prune_inbox, prune_outbox,
  published_before, take_oldest,
}
use kafka_lab.UseCases.Prune.{PruneWeather, drain, drain_inbox, drain_outbox, prune, prune_after}
use kafka_lab.UseCases.Prune.Finished.{Finished, prune-Finished}
use kafka_lab.UseCases.Authorize.{AuthorizeCommand, execute_authorize}
use kafka_lab.UseCases.RecordMovement.{record_event}
use kafka_lab.UseCases.Relay.{sweep}
use kafka_lab.Kafka.Detours.{acked}
use kafka_lab.System.{Reach, System, authorizes, counts, here, sweeps, then_step}
use kafka_lab.System.Sound.{IsSound}
use kafka_lab.System.Reached.{Reach-IsSound}
use kafka_lab.Tests.Fixtures.{busy, calm, empty_database, moment, sale, silent}
use kafka_lab.Tests.Samples.{small_json, small_relay, small_uuids, waiting, weather_of}

abbrev claimed_at : Text → ℕ → InboxRow
claimed_at event_id n = record { event_id = event_id; consumed_at = moment n }

-- Two claims past every horizon and one within.
abbrev old_database : Database
old_database = record empty_database {
  outbox = waiting 1 ∷ record (waiting 2) { published_at = some (moment 1000) } ∷ [];
  inbox =
      claimed_at (codes "7") 1000
      ∷ claimed_at (codes "8") 9_999_000
      ∷ claimed_at (codes "9") 900
      ∷ [];
  next_id = 3;
}

abbrev year : Horizons
year = record { inbox = shortest_inbox; outbox = hours 24 }

abbrev quiet : PruneWeather
quiet = record {
  now = moment 10_000_000;
  inbox_answers = λ i. committed;
  outbox_answers = λ i. committed;
}

-- The connection is lost in the second round on the inbox.
abbrev broken : PruneWeather
broken = record quiet {
  inbox_answers = λ i. if i == 1 then failed (deadline_exceeded ∷ []) false else committed;
}

-- A run in batches of one: two claims and the published row are deleted.
prune_run :
    prune 5 year 1 quiet old_database
    ≡ some (
      record { inbox = 2; outbox = 1; error = none },
      record old_database {
        outbox = waiting 1 ∷ [];
        inbox = claimed_at (codes "8") 9_999_000 ∷ [];
      },
    )
unfolding prune drain_inbox drain_outbox prune_after drain prune_inbox prune_outbox delete_oldest
    delete_first take_oldest consumed_before published_before on_its_own inbox_cutoff outbox_cutoff
    time_add ◌+ℤ◌ ◌-ℤ◌
prune_run = refl

prune-Finished_example : Finished year broken old_database (prune 5 year 1 broken old_database)
prune-Finished_example =
    prune-Finished year broken 1 old_database 5 (omega arith) (omega arith) (omega arith)

abbrev first_sale : AuthorizeCommand
first_sale = record {
  merchant_id = codes "m-42";
  amount_minor = pos 1999;
  currency = codes "EUR";
  idempotency_key = codes "k";
}

abbrev start : System
start = record { db = empty_database; log = [] }

empty-IsSound : IsSound small_relay empty_database []
empty-IsSound = record { announces = record { ids = tt; announced = tt }; below = tt; keys = tt }

-- An authorisation whose commit goes unanswered, a sweep of the relay, and the event at the consumer.
abbrev after_sale : Database
after_sale =
    (execute_authorize small_uuids small_json silent first_sale (moment 1000) (record { value = 1 })
      empty_database).1

abbrev swept : System
swept = record {
  db = (sweep small_relay (weather_of calm (λ i. acked)) (after_sale, [])).0.1;
  log = (sweep small_relay (weather_of calm (λ i. acked)) (after_sale, [])).1;
}

abbrev after_count : System
after_count = record swept { db = (record_event busy sale (moment 2000) swept.db).1 }

sale_reached : Reach small_uuids small_relay start after_count
sale_reached =
    then_step
      (then_step
        (then_step here (authorizes silent first_sale (moment 1000) (record { value = 1 })))
        (sweeps (weather_of calm (λ i. acked))))
      (counts busy sale (moment 2000))

Reach-IsSound_example : IsSound small_relay after_count.db after_count.log
Reach-IsSound_example = Reach-IsSound small_uuids small_relay empty-IsSound sale_reached
