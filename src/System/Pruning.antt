-- ===== src/System/Pruning.antt =====
-- Housekeeping keeps the tables sound.
use mathlib.Core.Option
use kafka_lab.Base.{
  All, Bool-cases, List, Option, [], arith, false, if◌then◌else◌, inl, inr, ltb, none, some, suc,
  true, zero, ℕ, ◌+◌, ◌∷◌, ◌≤◌,
}
use kafka_lab.Base.Time.{Time, to_utc}
use kafka_lab.Base.Errors.{Error, Result, err, ok}
use kafka_lab.Retention.{Horizons, inbox_cutoff, outbox_cutoff}
use kafka_lab.Database.{Action, Database, OutboxRow}
use kafka_lab.Database.Transaction.{CommitAnswer, committed, failed}
use kafka_lab.Database.Preserves.{Preserves}
use kafka_lab.Database.Prune.{delete_first, on_its_own, prune_inbox, prune_outbox, published_before}
use kafka_lab.Kafka.Detours.{Produced}
use kafka_lab.UseCases.Prune.{
  Drain, PruneWeather, Pruned, drain, drain_inbox, drain_outbox, prune, prune_after,
}
use kafka_lab.UseCases.Relay.{Wiring}
use kafka_lab.UseCases.Relay.Announced.{IsAbove}
use kafka_lab.System.Statements.{Sound}
use kafka_lab.System.Counting.{inbox-Sound}

delete_first-All :
    (Q : OutboxRow → Type 0) (before : Time) (limit : ℕ) (rows : List OutboxRow)
    → All Q rows
    → All Q (delete_first before limit rows).0
unfolding delete_first
delete_first-All Q before zero rows h = h
delete_first-All Q before (suc n) [] h = tt
delete_first-All Q before (suc n) (row ∷ rows) h = elim (Bool-cases (published_before before row)) [
  | inl e ↦ rw e (delete_first-All Q before n rows h.1)
  | inr e ↦ rw e (h.0, delete_first-All Q before (suc n) rows h.1)
]

IsAbove-lower : (m n : ℕ) (rows : List OutboxRow) → m ≤ n → IsAbove n rows → IsAbove m rows
IsAbove-lower m n [] low h = tt
IsAbove-lower m n (row ∷ rows) low h = (omega arith, h.1)

delete_first-IsAbove :
    (before : Time) (limit m : ℕ) (rows : List OutboxRow)
    → IsAbove m rows
    → IsAbove m (delete_first before limit rows).0
unfolding delete_first
delete_first-IsAbove before zero m rows h = h
delete_first-IsAbove before (suc n) m [] h = tt
delete_first-IsAbove before (suc n) m (row ∷ rows) h =
    elim (Bool-cases (published_before before row)) [
      | inl e ↦ rw e (
          IsAbove-lower m (row.id + 1) _ (omega arith)
            (delete_first-IsAbove before n (row.id + 1) rows h.1))
      | inr e ↦ rw e (h.0, delete_first-IsAbove before (suc n) (row.id + 1) rows h.1)
    ]

module _ (r : Wiring) (log : List Produced) where
  abbrev Keeps : {A : Type 0} → Action A → Type 0
  Keeps = Preserves (Sound r log)

  on_its_own-Sound :
      (answer : CommitAnswer) (deleted : ℕ) (db db' : Database)
      → Sound r log db
      → Sound r log db'
      → Sound r log (on_its_own answer deleted db db').1
  unfolding on_its_own
  on_its_own-Sound committed deleted db db' h h' = h'
  on_its_own-Sound (failed e true) deleted db db' h h' = h'
  on_its_own-Sound (failed e false) deleted db db' h h' = h

  prune_inbox-Preserves :
      (answer : CommitAnswer) (before : Time) (limit : ℕ) → Keeps (prune_inbox answer before limit)
  unfolding prune_inbox
  prune_inbox-Preserves answer before limit db h =
      on_its_own-Sound answer _ db _ h (inbox-Sound r log db _ h)

  prune_outbox-Preserves :
      (answer : CommitAnswer) (before : Time) (limit : ℕ) → Keeps (prune_outbox answer before limit)
  unfolding prune_outbox
  prune_outbox-Preserves answer before limit db h = on_its_own-Sound answer _ db _ h (record {
    announces = record {
      ids = delete_first-IsAbove (to_utc before) limit 0 db.outbox h.announces.ids;
      announced = delete_first-All _ (to_utc before) limit db.outbox h.announces.announced;
    };
    below = delete_first-All _ (to_utc before) limit db.outbox h.below;
    keys = h.keys;
  })

  -- What a run that came to an end leaves sound.
  abbrev pub Leaves : {A : Type 0} → Option (A × Database) → Type 0
  Leaves none = Unit {0}
  Leaves (some (end, db)) = Sound r log db

  drained-Leaves :
      (fuel batch round total : ℕ) (delete : ℕ → Action ℕ) (answer : Result ℕ × Database)
      → Sound r log answer.1
      → ((t : ℕ) (db : Database)
          → Sound r log db
          → Leaves (drain fuel batch delete (round + 1) t db))
      → Leaves {A = Drain} (elim answer.0 [
        | err e ↦ some (record { total = total; error = some e }, answer.1)
        | ok deleted ↦
            let rest = drain fuel batch delete (round + 1) (total + deleted) answer.1 in
            if ltb deleted batch
            then some (record { total = total + deleted; error = none }, answer.1)
            else rest
      ])
  drained-Leaves fuel batch round total delete (err e, db) h ih = h
  drained-Leaves fuel batch round total delete (ok deleted, db) h ih =
      elim (Bool-cases (ltb deleted batch)) [
        | inl short ↦ rw short h
        | inr long ↦ rw long (ih (total + deleted) db h)
      ]

  drain-Leaves :
      (fuel batch round total : ℕ) (delete : ℕ → Action ℕ) (db : Database)
      → ((i : ℕ) → Keeps (delete i))
      → Sound r log db
      → Leaves (drain fuel batch delete round total db)
  unfolding drain
  drain-Leaves zero batch round total delete db keeps h = tt
  drain-Leaves (suc fuel) batch round total delete db keeps h =
      drained-Leaves fuel batch round total delete (delete round db) (keeps round db h)
        (λ t d k. drain-Leaves fuel batch (round + 1) t delete d keeps k)

  map-Leaves :
      (total : ℕ) (end : Option (Drain × Database))
      → Leaves end
      → Leaves (
          Option.map
            (λ (last : Drain × Database).
              let p : Pruned = record {
                inbox = total;
                outbox = last.0.total;
                error = last.0.error;
              } in
              (p, last.1))
            end)
  map-Leaves total none h = tt
  map-Leaves total (some (end, db)) h = h

  prune_after-Leaves :
      (fuel : ℕ) (h : Horizons) (batch : ℕ) (w : PruneWeather) (total : ℕ) (error : Option Error)
      (db : Database)
      → Sound r log db
      → Leaves (prune_after fuel h batch w (record { total = total; error = error }, db))
  unfolding prune_after drain_outbox
  prune_after-Leaves fuel h batch w total (some e) db k = k
  prune_after-Leaves fuel h batch w total none db k =
      map-Leaves total (drain_outbox fuel h batch w db) (
        drain-Leaves fuel batch 0 0 _ db
          (λ i. prune_outbox-Preserves (w.outbox_answers i) (outbox_cutoff h w.now) batch) k)

  inbox-Leaves :
      (fuel : ℕ) (h : Horizons) (batch : ℕ) (w : PruneWeather) (end : Option (Drain × Database))
      → Leaves end
      → Leaves (elim end [ none ↦ none | some inbox ↦ prune_after fuel h batch w inbox ])
  inbox-Leaves fuel h batch w none k = tt
  inbox-Leaves fuel h batch w (some (end, db)) k =
      prune_after-Leaves fuel h batch w end.total end.error db k

  pub prune-Leaves :
      (fuel : ℕ) (h : Horizons) (batch : ℕ) (w : PruneWeather) (db : Database)
      → Sound r log db
      → Leaves (prune fuel h batch w db)
  unfolding prune drain_inbox
  prune-Leaves fuel h batch w db k = inbox-Leaves fuel h batch w (drain_inbox fuel h batch w db) (
      drain-Leaves fuel batch 0 0 _ db
        (λ i. prune_inbox-Preserves (w.inbox_answers i) (inbox_cutoff h w.now) batch) k)
