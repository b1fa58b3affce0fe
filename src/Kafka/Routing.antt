-- ===== src/Kafka/Routing.antt =====
-- internal/infrastructure/kafka/routing.go: what becomes of one record.
pub mod Growth
pub mod Safety
use kafka_lab.Base.{Bool, List, Option, [], if◌then◌else◌, none, some, ◌+◌, ◌||◌, ◌∷◌}
use kafka_lab.Base.Text.{Text, is_empty}
use kafka_lab.Base.Time.{Duration, Time}
use kafka_lab.Base.Errors.{
  Error, Result, Sentinel, canceled, client_closed, contended, dead_letter_failed, err, is, join,
  ok, retry_failed, unprocessable,
}
use kafka_lab.Database.{Database}
use kafka_lab.Database.Transaction.{Session}
use kafka_lab.UseCases.Movement.{PaymentEvent}
use kafka_lab.UseCases.RecordMovement.{record_event}
use kafka_lab.Kafka.Stage.{
  Class, KafkaRecord, Stage, class_exhausted, class_refused, class_undecodable,
}
use kafka_lab.Kafka.Headers.{Printing}
use kafka_lab.Kafka.Wire.{Codec, decode_event}
use kafka_lab.Kafka.Detours.{ProduceAnswer, Produced, dead_letter, retry}

-- What a consumer works on: the tables, and the records that the brokers have stored.
pub record World : Type 0 where
  pub db : Database
  pub log : List Produced

-- What the clocks, the database and the brokers answer while one record is handled.
pub record Attempt : Type 0 where
  pub elapsed : Duration
  pub session : Session
  pub at : Time
  pub answer : ProduceAnswer
  pub now : Time
  pub trace_id : Text

-- A consumer: its stage, where its dead letters go, and the libraries that it calls.
pub record Consumer : Type 0 where
  pub stage : Stage
  pub dlq_topic : Text
  pub codec : Codec
  pub printing : Printing

-- `stopping`
unfoldable pub stopping : Error → Bool
stopping e = is e canceled || is e client_closed

-- The end of a detour: the log it leaves, and its error with a sentinel in front.
abbrev pub detoured : World → Sentinel → Option Error × List Produced → Option Error × World
detoured w s (none, log) = (none, record w { log = log })
detoured w s (some e, log) = (some (join (s ∷ []) e), record w { log = log })

-- `Consumer.deadLetter`
unfoldable pub archive :
    Consumer → Attempt → KafkaRecord → Error → Class → World → Option Error × World
unfolding dead_letter
archive c a r reason class w =
    detoured w dead_letter_failed
      (dead_letter c.printing a.answer c.dlq_topic r reason class a.trace_id a.now w.log)

-- `Consumer.moveOn`
unfoldable pub move_on : Consumer → Attempt → KafkaRecord → Error → World → Option Error × World
unfolding archive retry
move_on c a r reason w =
    if is_empty c.stage.next
    then archive c a r reason class_exhausted w
    else detoured w retry_failed
        (retry c.printing a.answer r c.stage.next (c.stage.tier + 1) a.now w.log)

-- The `switch` of `handleRecord` on what the use case answered.
unfoldable pub route : Consumer → Attempt → KafkaRecord → World → Result Bool → Option Error × World
unfolding archive move_on
route c a r w (ok counted) = (none, w)
route c a r w (err e) =
    if stopping e
    then (some e, w)
    else if is e unprocessable
    then archive c a r e class_refused w
    else if is e contended
    then move_on c a r e w
    else (some e, w)

-- `handleRecord` once the record was decoded, or was not.
unfoldable pub handle_decoded :
    Consumer → Attempt → KafkaRecord → World → Result PaymentEvent → Option Error × World
unfolding archive route
handle_decoded c a r w (err e) = archive c a r e class_undecodable w
handle_decoded c a r w (ok event) =
    let (answer, db) = record_event a.session event a.at w.db in
    route c a r (record w { db = db }) answer

-- `handleRecord`
unfoldable pub handle_record : Consumer → Attempt → KafkaRecord → World → Option Error × World
unfolding handle_decoded
handle_record c a r w = handle_decoded c a r w (decode_event c.codec r)
