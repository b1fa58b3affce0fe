-- ===== src/System.antt =====
-- The service as a whole: the tables that the API, the relay, the consumer and housekeeping share,
-- and the topic that the relay publishes to. Each step is one call of one of them, in any order.
pub mod Sound
pub mod Statements
pub mod Calls
pub mod Counting
pub mod Sweeping
pub mod Pruning
pub mod Reached
use kafka_lab.Base.{List, some, ℕ, ◌≡◌}
use kafka_lab.Base.Time.{Time}
use kafka_lab.Retention.{Horizons}
use kafka_lab.Payment.Identity.{PaymentId, Uuids}
use kafka_lab.Database.{Database}
use kafka_lab.Database.Transaction.{Session}
use kafka_lab.UseCases.Authorize.{AuthorizeCommand, execute_authorize}
use kafka_lab.UseCases.Change.{ChangeCommand, Move, apply_change}
use kafka_lab.UseCases.Movement.{PaymentEvent}
use kafka_lab.UseCases.RecordMovement.{record_event}
use kafka_lab.UseCases.Relay.{Weather, Wiring, sweep}
use kafka_lab.UseCases.Prune.{PruneWeather, Pruned, prune}
use kafka_lab.Kafka.Detours.{Produced}

pub record System : Type 0 where
  pub db : Database
  pub log : List Produced

-- One call, with whatever it meets.
pub data Step (u : Uuids) (r : Wiring) (s : System) : System → Type 0 where
  authorizes :
      (session : Session) (cmd : AuthorizeCommand) (at : Time) (id : PaymentId)
      → Step u r s (record s { db = (execute_authorize u r.json session cmd at id s.db).1 })
  changes :
      (session : Session) (move : Move) (cmd : ChangeCommand) (at : Time)
      → Step u r s (record s { db = (apply_change u r.json session move cmd at s.db).1 })
  counts :
      (session : Session) (event : PaymentEvent) (at : Time)
      → Step u r s (record s { db = (record_event session event at s.db).1 })
  sweeps :
      (w : Weather)
      → Step u r s
          (record { db = (sweep r w (s.db, s.log)).0.1; log = (sweep r w (s.db, s.log)).1 })
  prunes :
      (fuel : ℕ) (h : Horizons) (batch : ℕ) (w : PruneWeather) (p : Pruned) (db : Database)
      → prune fuel h batch w s.db ≡ some (p, db)
      → Step u r s (record s { db = db })

-- What is reached from a state by any number of steps.
pub data Reach (u : Uuids) (r : Wiring) (s : System) : System → Type 0 where
  here : Reach u r s s
  then_step : {t v : System} → Reach u r s t → Step u r t v → Reach u r s v
