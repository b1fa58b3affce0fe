-- ===== src/UseCases/Relay/Marking.antt =====
-- Marking rows keeps every announcement (internal/application/outbox/relay.go).
use kafka_lab.Base.{Bool-cases, List, Option, [], arith, inl, inr, none, some, ℕ, ◌&&◌, ◌+◌, ◌∷◌}
use kafka_lab.Base.Time.{Time, to_utc}
use kafka_lab.Base.Errors.{Error, join, ok, outbox_storage}
use kafka_lab.Database.{Context, Database, OutboxRow, exec, mark_published}
use kafka_lab.Database.Outbox.{has_id, is_unpublished, mark_batch, mark_rows}
use kafka_lab.Kafka.Detours.{Produced}
use kafka_lab.Kafka.Publisher.{encode_as, encode_row, message}
use kafka_lab.Kafka.Publisher.Reading.{IsOnTopic}
use kafka_lab.UseCases.Relay.{Wiring}
use kafka_lab.UseCases.Relay.Announced.{AreAnnounced, Fit, IsAbove}

-- The outbox is in order, and each row of it that is marked published has its message on the topic.
pub record Announces (r : Wiring) (db : Database) (log : List Produced) : Type 0 where
  pub ids : IsAbove 0 db.outbox
  pub announced : AreAnnounced r log db.outbox

mark_rows-IsAbove :
    (ids : List ℕ) (at : Time) (n : ℕ) (rows : List OutboxRow)
    → IsAbove n rows
    → IsAbove n (mark_rows ids at rows)
unfolding mark_rows
mark_rows-IsAbove ids at n [] h = tt
mark_rows-IsAbove ids at n (row ∷ rows) h =
    let rest = mark_rows-IsAbove ids at (row.id + 1) rows h.1 in
    elim (Bool-cases (has_id ids row.id && is_unpublished row)) [
      | inl e ↦ rw e (h.0, rest)
      | inr e ↦ rw e (h.0, rest)
    ]

mark_rows-AreAnnounced :
    (r : Wiring) (log : List Produced) (ids : List ℕ) (at : Time) (rows : List OutboxRow)
    → AreAnnounced r log rows
    → Fit (IsOnTopic r.json r.encode r.topic log) ids rows
    → AreAnnounced r log (mark_rows ids at rows)
unfolding mark_rows message encode_row encode_as
mark_rows-AreAnnounced r log ids at [] h f = tt
mark_rows-AreAnnounced r log ids at (row ∷ rows) h f =
    let rest = mark_rows-AreAnnounced r log ids at rows h.1 f.1 in
    elim (Bool-cases (has_id ids row.id && is_unpublished row)) [
      | inl e ↦ rw e ((λ _. f.0 (ground arith)), rest)
      | inr e ↦ rw e (h.0, rest)
    ]

marked-Announces :
    (r : Wiring) (fault : Option Error) (at : Time) (ids : List ℕ) (db : Database)
    (log : List Produced)
    → Announces r db log
    → Fit (IsOnTopic r.json r.encode r.topic log) ids db.outbox
    → Announces r
        (exec fault
          (λ e. join (outbox_storage ∷ []) e)
          (λ d. (ok tt, record d { outbox = mark_rows ids (to_utc at) d.outbox }))
          db).1
        log
marked-Announces r none at ids db log h f = record {
  ids = mark_rows-IsAbove ids (to_utc at) 0 db.outbox h.ids;
  announced = mark_rows-AreAnnounced r log ids (to_utc at) db.outbox h.announced f;
}
marked-Announces r (some e) at ids db log h f = h

pub mark_batch-Announces :
    (r : Wiring) (ctx : Context) (at : Time) (ids : List ℕ) (db : Database) (log : List Produced)
    → Announces r db log
    → Fit (IsOnTopic r.json r.encode r.topic log) ids db.outbox
    → Announces r (mark_batch ctx ids at db).1 log
unfolding mark_batch
mark_batch-Announces r ctx at [] db log h f = h
mark_batch-Announces r ctx at (i ∷ ids) db log h f =
    marked-Announces r (ctx.fault mark_published) at (i ∷ ids) db log h f
