-- ===== src/Lib.antt =====
-- The payments service of Kafka-lab: a payments API that keeps payments and an outbox in Postgres, a
-- relay that publishes the outbox to Kafka, and a consumer that counts what merchants authorised,
-- captured and refunded, each event once, over retry tiers and a dead letter topic.
--
-- The files and the code they are about:
--   Base            numbers, lists, bytes and UTF-8, times, and errors as lists of sentinels
--   Payment         internal/domain/payment: amounts, ids, the aggregate and its events
--   Merchant        internal/domain/merchant: what the consumer counts, and its sums
--   Retention       internal/domain/retention: how long what is remembered
--   Outboxwire      internal/infrastructure/outboxwire: the format of an outbox row
--   Database        internal/infrastructure/postgres: the tables, the transactions (storage.go and
--                   transactions.go in Transaction, Settlement, Endings), inbox.go, totals.go,
--                   outbox.go and events.go (Outbox), payments.go and statuses.go (Payments, Taken),
--                   prune.go (Prune); Preserves is about any of them
--   UseCases        internal/application: payments/authorize.go and idempotency_key.go (Authorize),
--                   payments/change.go (Change), merchants/record_movement.go (Movement,
--                   RecordMovement, Agreement), merchants/read_totals.go (ReadTotals),
--                   outbox/relay.go (Relay), housekeeping/prune.go (Prune)
--   Kafka           internal/infrastructure/kafka: stage.go and chain.go (Stage, Chain, Headers),
--                   decode.go (Wire), detours.go (Detours), routing.go (Routing), consumer.go
--                   (Batch, Polling), pauses.go (Pauses), replay.go (Ranges, Replay), publisher.go
--                   (Publisher)
--   Http            internal/interfaces/http: errors.go (Refusals), server.go (Server), payments.go
--                   (Payments)
--   System          all of them over the tables and the topic that they share, a call at a time
--   Tests           the theorems at concrete inputs, and runs of the definitions
--
-- How the code is read. A function of the code is a function here, named as the code names it in
-- this library's spelling; a method takes its receiver's fields. An error is the list of the
-- sentinels that `errors.Is` would find in it, so wrapping and joining put lists together; texts of
-- errors and logs, metrics and spans are left out. A time is a number of nanoseconds since the zero
-- time with a zone; Go's monotonic clock and the microseconds of a `timestamptz` are left out. An
-- `int64` is an integer, with the bounds that the code or a column checks written out, and a sum past
-- bigint answers with the code 22003.
--
-- Postgres is a record of tables. A statement is a function on it, translated from the SQL; each may
-- instead fail with any error, which a `Session` says, and a commit may fail with any error and be
-- applied or not. `IsHonest` is what Postgres and pgx document: after an answer that they call a
-- rollback, under the codes that `is_documented_rollback` lists, nothing was applied. Rows stand in
-- the order of their ids, and a relay may find any rows locked by others. CHECK constraints and lock timeouts enter as failing statements. Transactions
-- run one after another: what they see of each other while they run is not modelled.
--
-- Kafka is the list of the records that the brokers have stored. A produced record is acknowledged,
-- or it fails with any error and is stored or not. What a poll fetches is any list of partitions,
-- each with what its handling meets: the time, the database's answers and the brokers'.
-- A group's offsets are marks (`Marks`): franz-go documents that a commit of records commits, for each
-- partition, the offset behind the highest of them, and all before it counts as committed. Where a
-- theorem speaks of what is committed, a poll fetches each partition in the order of its offsets.
-- Where a client's next poll begins, after a commit, a rewind or a lost session, is not modelled.
--
-- The interface is a function from a request to an answer, what is logged of it, and the tables it
-- leaves. Its body is told before it is encoded; JSON that is read is a parameter with the limit of
-- bytes. Routes are what the multiplexer finds; deadlines enter as errors of statements.
--
-- Code that is not the repository's is a parameter: uuids (`Uuids`), JSON with the jsonb column
-- between (`Json`) and of a request (`DecodeJson`), the schema registry's framing and protobuf
-- (`Codec`, `Encode`), and what prints times and errors (`Printing`). `Agree` is what the theorem on
-- reading back uses of them: JSON and protobuf give back what they were given, and a timestamp keeps
-- its instant. `HasForeignErrors` says that a connection's errors hold none of the
-- program's own sentinels.
--
-- Loops run over their lists, so no fuel is needed but in two places: the digits of a number (`itoa`),
-- with more than the number has digits, and the batches of a run of housekeeping (`drain`), with more
-- than a table has rows, which is enough as every full batch deletes one at least. A poll loop and the
-- relay's ticker run for ever in the code; here a consumer's life is a list of rounds, a relay's a
-- list of sweeps, and a replay's a list of polls, each with what it meets.
--
-- Not modelled: the commands' wiring, configuration, metrics, telemetry, the making of clients,
-- rebalances, HTTP timeouts and the matching of paths, migrations, generated code, deployments, the
-- documentation's own tool (askdocs) and the experiments.
pub mod Base
pub mod Payment
pub mod Retention
pub mod Merchant
pub mod Outboxwire
pub mod Database
pub mod UseCases
pub mod Kafka
pub mod Http
pub mod System
mod Tests
