-- ===== src/System/Sweeping.antt =====
-- The relay keeps the tables sound.
use mathlib.Core.Path.{subst}
use kafka_lab.Base.{
  All, Bool, Bool-cases, List, Option, [], inl, inr, none, some, sym, ℕ, ◌&&◌, ◌<◌, ◌∷◌,
}
use kafka_lab.Base.Time.{Time, to_utc}
use kafka_lab.Base.Errors.{Error, Result, err, ok}
use kafka_lab.Database.{Context, Database, OutboxRow, mark_published}
use kafka_lab.Database.Transaction.{inside_of, outbox_terms}
use kafka_lab.Database.Outbox.{claim_batch, has_id, is_unpublished, mark_batch, mark_rows}
use kafka_lab.Database.Preserves.{Preserves, bind-Preserves, exec-Preserves, within_tx-Preserves}
use kafka_lab.UseCases.Relay.{
  Weather, Wiring, ids_of, mark_claimed, publish_claimed, sweep, sweep_in,
}
use kafka_lab.UseCases.Relay.Sweeping.{claim_batch-tables, sweep-Announces}
use kafka_lab.Kafka.Detours.{Produced}
use kafka_lab.System.Sound.{AreDistinctKeys, IsSound}

-- What of soundness the topic has no part in.
abbrev Ordered : Database → Type 0
Ordered db = All (λ row. row.id < db.next_id) db.outbox × AreDistinctKeys db.payments

mark_rows-below :
    (ids : List ℕ) (at : Time) (n : ℕ) (rows : List OutboxRow)
    → All (λ row. row.id < n) rows
    → All (λ row. row.id < n) (mark_rows ids at rows)
unfolding mark_rows
mark_rows-below ids at n [] h = tt
mark_rows-below ids at n (row ∷ rows) h =
    let rest = mark_rows-below ids at n rows h.1 in
    elim (Bool-cases (has_id ids row.id && is_unpublished row)) [
      | inl e ↦ rw e (h.0, rest)
      | inr e ↦ rw e (h.0, rest)
    ]

mark_batch-Preserves :
    (ctx : Context) (ids : List ℕ) (at : Time) → Preserves Ordered (mark_batch ctx ids at)
unfolding mark_batch
mark_batch-Preserves ctx [] at db h = h
mark_batch-Preserves ctx (i ∷ ids) at db h =
    exec-Preserves Ordered (ctx.fault mark_published) _ _
      (λ d k. (mark_rows-below (i ∷ ids) (to_utc at) d.next_id d.outbox k.0, k.1)) db h

claim_batch-Preserves :
    (ctx : Context) (locked : ℕ → Bool) (limit : ℕ)
    → Preserves Ordered (claim_batch ctx locked limit)
claim_batch-Preserves ctx locked limit db h =
    subst Ordered (sym (claim_batch-tables ctx locked limit db)) h

mark_claimed-Ordered :
    (ctx : Context) (at : Time) (rows : List OutboxRow) (sent : Option Error × List Produced)
    → Preserves Ordered (λ db. (mark_claimed ctx at rows sent db).0)
unfolding mark_claimed
mark_claimed-Ordered ctx at rows (some e, log) db h = h
mark_claimed-Ordered ctx at rows (none, log) db h =
    bind-Preserves Ordered (mark_batch ctx (ids_of rows) at) _
      (mark_batch-Preserves ctx (ids_of rows) at) (λ _ d k. k) db h

publish_claimed-Ordered :
    (r : Wiring) (ctx : Context) (w : Weather) (claim : Result (List OutboxRow) × Database)
    (log : List Produced)
    → Ordered claim.1
    → Ordered (publish_claimed r ctx w claim log).0.1
unfolding publish_claimed
publish_claimed-Ordered r ctx w (err e, db) log h = h
publish_claimed-Ordered r ctx w (ok [], db) log h = h
publish_claimed-Ordered r ctx w (ok (row ∷ rows), db) log h =
    mark_claimed-Ordered ctx w.now (row ∷ rows) _ db h

sweep-Ordered :
    (r : Wiring) (w : Weather) (db : Database) (log : List Produced)
    → Ordered db
    → Ordered (sweep r w (db, log)).0.1
unfolding sweep sweep_in
sweep-Ordered r w db log =
    within_tx-Preserves Ordered outbox_terms w.session (λ ctx d. (sweep_in r w log ctx d).0)
      (λ d h.
        publish_claimed-Ordered r (inside_of w.session) w _ log
          (claim_batch-Preserves (inside_of w.session) w.locked r.batch d h))
      db

pub sweep-IsSound :
    (r : Wiring) (w : Weather) (db : Database) (log : List Produced)
    → IsSound r db log
    → IsSound r (sweep r w (db, log)).0.1 (sweep r w (db, log)).1
sweep-IsSound r w db log h =
    let ordered = sweep-Ordered r w db log (h.below, h.keys) in
    record {
      announces = sweep-Announces r w db log h.announces;
      below = ordered.0;
      keys = ordered.1;
    }
