-- ===== src/UseCases/Prune.antt =====
-- internal/application/housekeeping/prune.go: both bookkeeping tables, a batch after a batch.
pub mod Drained
pub mod Tables
pub mod Finished
use mathlib.Core.Option
use kafka_lab.Base.{Option, [], if◌then◌else◌, ltb, none, some, suc, zero, ℕ, ◌+◌, ◌∷◌}
use kafka_lab.Base.Int.{leb_ℤ, pos, ℤ}
use kafka_lab.Base.Time.{Time}
use kafka_lab.Base.Errors.{Error, Result, err, ok, prune_batch}
use kafka_lab.Retention.{Horizons, inbox_cutoff, outbox_cutoff}
use kafka_lab.Database.{Action, Database}
use kafka_lab.Database.Transaction.{CommitAnswer}
use kafka_lab.Database.Prune.{prune_inbox, prune_outbox}

-- `NewPrune`
unfoldable pub check_batch : ℤ → Result (Unit {0})
check_batch batch = if leb_ℤ batch (pos 0) then err (prune_batch ∷ []) else ok tt

-- How a run over a table ended: the rows that it counted as deleted, and its error, if it had one.
pub record Drain : Type 0 where
  pub total : ℕ
  pub error : Option Error

-- The loop of `drain`, from a round and a total on, with what `deleteBatch` does in each round. It
-- has no value if the fuel runs out.
unfoldable pub drain : ℕ → ℕ → (ℕ → Action ℕ) → ℕ → ℕ → Database → Option (Drain × Database)
drain zero batch delete round total db = none
drain (suc fuel) batch delete round total db =
    let (answer, db') = delete round db in
    elim answer [
      | err e ↦ some (record { total = total; error = some e }, db')
      | ok deleted ↦
          let rest = drain fuel batch delete (round + 1) (total + deleted) db' in
          if ltb deleted batch
          then some (record { total = total + deleted; error = none }, db')
          else rest
    ]

-- What the statements of a run meet, on each of the tables.
pub record PruneWeather : Type 0 where
  pub now : Time
  pub inbox_answers : ℕ → CommitAnswer
  pub outbox_answers : ℕ → CommitAnswer

-- `Result`, with the error beside it.
pub record Pruned : Type 0 where
  pub inbox : ℕ
  pub outbox : ℕ
  pub error : Option Error

unfoldable pub drain_inbox : ℕ → Horizons → ℕ → PruneWeather → Database → Option (Drain × Database)
unfolding drain prune_inbox inbox_cutoff
drain_inbox fuel h batch w =
    drain fuel batch (λ i. prune_inbox (w.inbox_answers i) (inbox_cutoff h w.now) batch) 0 0

unfoldable pub drain_outbox : ℕ → Horizons → ℕ → PruneWeather → Database → Option (Drain × Database)
unfolding drain prune_outbox outbox_cutoff
drain_outbox fuel h batch w =
    drain fuel batch (λ i. prune_outbox (w.outbox_answers i) (outbox_cutoff h w.now) batch) 0 0

-- `execute` after the inbox: an error there leaves the outbox for the next run.
unfoldable pub prune_after :
    ℕ → Horizons → ℕ → PruneWeather → Drain × Database → Option (Pruned × Database)
unfolding drain_outbox
prune_after fuel h batch w (inbox, db) = elim inbox.error [
  | some e ↦ some (record { inbox = inbox.total; outbox = 0; error = some e }, db)
  | none ↦
      Option.map
        (λ (end : Drain × Database).
          (record { inbox = inbox.total; outbox = end.0.total; error = end.0.error }, end.1))
        (drain_outbox fuel h batch w db)
]

-- `Prune.execute`
unfoldable pub prune : ℕ → Horizons → ℕ → PruneWeather → Database → Option (Pruned × Database)
unfolding drain_inbox prune_after
prune fuel h batch w db = elim (drain_inbox fuel h batch w db) [
  | none ↦ none
  | some inbox ↦ prune_after fuel h batch w inbox
]
