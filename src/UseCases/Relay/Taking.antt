-- ===== src/UseCases/Relay/Taking.antt =====
-- What a sweep takes out of the backlog (internal/application/outbox/relay.go).
use mathlib.Core.Path.{subst}
use kafka_lab.Base.{
  List, Option, [], ap, arith, inl, inr, keep, length, none, not, refl, some, suc, sym, zero, ℕ,
  ◌&&◌, ◌+◌, ◌∙◌, ◌∷◌, ◌≡◌, ◌≤◌, ◌⊎◌,
}
use kafka_lab.Base.Time.{Time, to_utc}
use kafka_lab.Base.Errors.{Error, Result, err, join, ok, outbox_storage}
use kafka_lab.Database.{Context, Database, OutboxRow, after, exec, mark_published, pure}
use kafka_lab.Database.Transaction.{inside_of, outbox_terms}
use kafka_lab.Database.Endings.{within_tx-end}
use kafka_lab.Database.Outbox.{claimable, is_unpublished, mark_batch, mark_rows, take_rows}
use kafka_lab.Kafka.Detours.{Produced}
use kafka_lab.Kafka.Publisher.{publish}
use kafka_lab.UseCases.Relay.{
  Weather, Wiring, ids_of, mark_claimed, publish_claimed, sweep, sweep_in,
}
use kafka_lab.UseCases.Relay.Announced.{IsAbove}
use kafka_lab.UseCases.Relay.Sweeping.{Claimed, claim_batch-Claimed}
use kafka_lab.UseCases.Relay.Backlog.{waiting_rows, waiting_rows-claimed}

-- The rows that a sweep could publish: those not published that no one else holds.
abbrev pub available : Weather → List OutboxRow → List OutboxRow
available w rows = keep (λ row. is_unpublished row && not (w.locked row.id)) rows

-- A sweep that answers a number has taken so many rows out of the backlog, no more than a batch; they
-- are a whole batch, or all that it could publish.
abbrev pub Takes : Wiring → Weather → Database → Result ℕ × Database → Type 0
Takes r w db (ok n, db') =
    (waiting_rows db'.outbox + n ≡ waiting_rows db.outbox)
    × (n ≤ r.batch)
    × ((n ≡ r.batch) ⊎ (n ≡ length (available w db.outbox)))
Takes r w db (err e, db') = Unit {0}

length-take_rows_cases :
    (k : ℕ) (rows : List OutboxRow)
    → (length (take_rows k rows) ≡ k) ⊎ (length (take_rows k rows) ≡ length rows)
unfolding take_rows
length-take_rows_cases zero rows = inl refl
length-take_rows_cases (suc k) [] = inr refl
length-take_rows_cases (suc k) (row ∷ rows) = elim (length-take_rows_cases k rows) [
  | inl e ↦ inl (ap suc e)
  | inr e ↦ inr (ap suc e)
]

claimed-Takes :
    (r : Wiring) (w : Weather) (at : Time) (db : Database)
    → IsAbove 0 db.outbox
    → Takes r w db (
      ok (length (claimable w.locked r.batch db.outbox)),
      record db { outbox = mark_rows (ids_of (claimable w.locked r.batch db.outbox)) at db.outbox },
    )
unfolding claimable
claimed-Takes r w at db above =
    let taken = waiting_rows-claimed w.locked r.batch at db.outbox above in
    (taken.0, taken.1, length-take_rows_cases r.batch (available w db.outbox))

executed-Takes :
    (r : Wiring) (w : Weather) (at : Time) (db : Database) (rows : List OutboxRow)
    (fault : Option Error) (said : Error → Error)
    → claimable w.locked r.batch db.outbox ≡ rows
    → IsAbove 0 db.outbox
    → Takes r w db (
        after
          (exec fault said
            (λ d. (ok tt, record d { outbox = mark_rows (ids_of rows) at d.outbox }))
            db)
          (λ _. pure (length rows)))
executed-Takes r w at db rows (some e) said claimed above = tt
executed-Takes r w at db rows none said claimed above =
    subst
      (λ l. Takes r w db (ok (length l), record db { outbox = mark_rows (ids_of l) at db.outbox }))
      claimed (claimed-Takes r w at db above)

marked-Takes :
    (r : Wiring) (ctx : Context) (w : Weather) (db : Database) (row : OutboxRow)
    (rows : List OutboxRow) (published : Option Error × List Produced)
    → claimable w.locked r.batch db.outbox ≡ row ∷ rows
    → IsAbove 0 db.outbox
    → Takes r w db (mark_claimed ctx w.now (row ∷ rows) published db).0
unfolding mark_claimed mark_batch
marked-Takes r ctx w db row rows (some e, log) claimed above = tt
marked-Takes r ctx w db row rows (none, log) claimed above =
    executed-Takes r w (to_utc w.now) db (row ∷ rows) (ctx.fault mark_published)
      (λ e. join (outbox_storage ∷ []) e) claimed above

empty-Takes :
    (r : Wiring) (w : Weather) (db : Database)
    → claimable w.locked r.batch db.outbox ≡ []
    → Takes r w db (ok 0, db)
unfolding claimable
empty-Takes r w db claimed = (
  omega arith,
  omega arith,
  elim (length-take_rows_cases r.batch (available w db.outbox)) [
    | inl e ↦ inl (sym (ap (λ (l : List OutboxRow). length l) claimed) ∙ e)
    | inr e ↦ inr (sym (ap (λ (l : List OutboxRow). length l) claimed) ∙ e)
  ],
)

published-Takes :
    (r : Wiring) (ctx : Context) (w : Weather) (db : Database) (log : List Produced)
    (claim : Result (List OutboxRow) × Database)
    → Claimed w.locked r.batch db claim
    → IsAbove 0 db.outbox
    → Takes r w db (publish_claimed r ctx w claim log).0
unfolding publish_claimed claimable
published-Takes r ctx w db log (err e, db') h above = tt
published-Takes r ctx w db log (ok [], db') h above =
    subst (λ d. Takes r w db (ok 0, d)) (sym h.0) (empty-Takes r w db (sym h.1))
published-Takes r ctx w db log (ok (row ∷ rows), db') h above =
    let published = publish r.json r.encode r.topic w.answers (row ∷ rows) log in
    subst (λ d. Takes r w db (mark_claimed ctx w.now (row ∷ rows) published d).0) (sym h.0)
      (marked-Takes r ctx w db row rows published (sym h.1) above)

-- In an outbox in the order of its ids, a sweep that answers a number, whatever it meets, has taken
-- exactly so many rows out of the backlog, no more than a batch. They are a whole batch, or all the
-- rows waiting that no one else held.
pub sweep-Takes :
    (r : Wiring) (w : Weather) (db : Database) (log : List Produced)
    → IsAbove 0 db.outbox
    → Takes r w db (sweep r w (db, log)).0
unfolding sweep sweep_in
sweep-Takes r w db log above =
    within_tx-end (Takes r w db) outbox_terms w.session _ db
      (published-Takes r (inside_of w.session) w db log _
        (claim_batch-Claimed (inside_of w.session) w.locked r.batch db) above)
      (λ e. tt) (λ e. tt)
