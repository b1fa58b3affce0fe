-- ===== src/System/Sound.antt =====
-- What holds of the tables and of the topic at every moment.
use kafka_lab.Base.{All, List, [], any, false, ◌<◌, ◌∷◌, ◌≡◌}
use kafka_lab.Database.{Database, PaymentRow}
use kafka_lab.Database.Payments.{under_key}
use kafka_lab.Kafka.Detours.{Produced}
use kafka_lab.UseCases.Relay.{Wiring}
use kafka_lab.UseCases.Relay.Marking.{Announces}

-- No two payments of a merchant have one idempotency key.
abbrev pub AreDistinctKeys : List PaymentRow → Type 0
AreDistinctKeys [] = Unit {0}
AreDistinctKeys (row ∷ rows) =
    (any (under_key row.merchant_id row.idempotency_key) rows ≡ false) × AreDistinctKeys rows

-- The outbox is in the order of its ids, the next id is above them, each row marked published has
-- its message on the topic, and a key has one payment.
pub record IsSound (r : Wiring) (db : Database) (log : List Produced) : Type 0 where
  pub announces : Announces r db log
  pub below : All (λ row. row.id < db.next_id) db.outbox
  pub keys : AreDistinctKeys db.payments
