-- ===== src/UseCases/Relay.antt =====
-- internal/application/outbox/relay.go: one sweep of the outbox, over the tables and the topic.
pub mod Announced
pub mod Marking
pub mod Sweeping
pub mod Backlog
pub mod Taking
use kafka_lab.Base.{
  Bool, List, Option, [], false, if◌then◌else◌, length, map, none, some, ℕ, ◌==◌, ◌||◌, ◌∷◌,
}
use kafka_lab.Base.Int.{leb_ℤ, pos, ℤ}
use kafka_lab.Base.Text.{Text}
use kafka_lab.Base.Time.{Duration, Time}
use kafka_lab.Base.Errors.{Error, Result, err, ok, relay_batch, relay_timeout}
use kafka_lab.Outboxwire.{Json}
use kafka_lab.Database.{Context, Database, OutboxRow, after, pure}
use kafka_lab.Database.Transaction.{Session, inside_of, outbox_terms, within_tx}
use kafka_lab.Database.Outbox.{claim_batch, mark_batch}
use kafka_lab.Kafka.Detours.{ProduceAnswer, Produced}
use kafka_lab.Kafka.Publisher.{Encode, publish}

pub record Limits : Type 0 where
  pub batch : ℤ
  pub sweep_timeout : Duration
  pub backlog_timeout : Duration

-- `Limits.check`
unfoldable pub check_limits : Limits → Result (Unit {0})
check_limits l =
    if leb_ℤ l.batch (pos 0)
    then err (relay_batch ∷ [])
    else if leb_ℤ l.sweep_timeout (pos 0) || leb_ℤ l.backlog_timeout (pos 0)
    then err (relay_timeout ∷ [])
    else ok tt

-- The publisher that a relay is made with: the format, the schema and the topic.
pub record Wiring : Type 0 where
  pub json : Json
  pub encode : Encode
  pub topic : Text
  pub batch : ℕ

-- What a sweep meets: the server's session, the rows that others hold, the brokers' answers and
-- the clock.
pub record Weather : Type 0 where
  pub session : Session
  pub locked : ℕ → Bool
  pub answers : ℕ → ProduceAnswer
  pub now : Time

abbrev pub ids_of : List OutboxRow → List ℕ
ids_of = map (λ (row : OutboxRow). row.id)

-- What the brokers have stored stays stored, whatever becomes of the transaction.
abbrev pub Swept : Type 0
Swept = (Result ℕ × Database) × List Produced

-- After `Publish`: mark the rows, if every record was acknowledged.
unfoldable pub mark_claimed :
    Context → Time → List OutboxRow → Option Error × List Produced → Database → Swept
unfolding mark_batch
mark_claimed ctx at rows (some e, log) db = ((err e, db), log)
mark_claimed ctx at rows (none, log) db =
    (after (mark_batch ctx (ids_of rows) at db) (λ _. pure (length rows)), log)

-- After `Claim`: an empty claim is the end of the sweep.
unfoldable pub publish_claimed :
    Wiring → Context → Weather → Result (List OutboxRow) × Database → List Produced → Swept
unfolding publish mark_claimed
publish_claimed r ctx w (err e, db) log = ((err e, db), log)
publish_claimed r ctx w (ok [], db) log = ((ok 0, db), log)
publish_claimed r ctx w (ok (row ∷ rows), db) log =
    mark_claimed ctx w.now (row ∷ rows) (publish r.json r.encode r.topic w.answers (row ∷ rows) log)
      db

-- The function that `sweep` runs in its transaction.
unfoldable pub sweep_in : Wiring → Weather → List Produced → Context → Database → Swept
unfolding claim_batch publish_claimed
sweep_in r w log ctx db = publish_claimed r ctx w (claim_batch ctx w.locked r.batch db) log

-- Without a transaction nothing is published.
abbrev pub log_after : Option Error → List Produced → Swept → List Produced
log_after (some e) log swept = log
log_after none log (_, log') = log'

-- `Relay.sweep`
unfoldable pub sweep : Wiring → Weather → Database × List Produced → Swept
unfolding within_tx sweep_in
sweep r w (db, log) = (
  within_tx outbox_terms w.session (λ ctx d. (sweep_in r w log ctx d).0) db,
  log_after w.session.begin_fault log (sweep_in r w log (inside_of w.session) db),
)

-- `sweepOnce`: whether `Run` sweeps again at once.
unfoldable pub is_full : Wiring → Swept → Bool
is_full r ((err e, db), log) = false
is_full r ((ok published, db), log) = published == r.batch

-- `Run`: one sweep after another, each in its own weather.
unfoldable pub run : Wiring → List Weather → Database × List Produced → Database × List Produced
unfolding sweep
run r [] (db, log) = (db, log)
run r (w ∷ ws) (db, log) = let ((_, db'), log') = sweep r w (db, log) in run r ws (db', log')
