-- ===== src/UseCases/Prune/Finished.antt =====
-- What a run of housekeeping leaves of the tables (internal/application/housekeeping/prune.go).
use mathlib.Core.Option
use kafka_lab.Base.{
  Bool, List, Option, ap, arith, false, keep, keep-keep, keep-not_self, length, length-keep_parts,
  none, not, some, sym, ℕ, ◌+◌, ◌<◌, ◌∙◌, ◌≡◌,
}
use kafka_lab.Base.Time.{time_after, to_utc}
use kafka_lab.Base.Errors.{Error}
use kafka_lab.Retention.{Horizons, inbox_cutoff, outbox_cutoff}
use kafka_lab.Database.{Database, InboxRow, OutboxRow}
use kafka_lab.Database.Prune.{consumed_before, prune_inbox, prune_outbox, published_before}
use kafka_lab.UseCases.Prune.{
  Drain, PruneWeather, Pruned, drain_inbox, drain_outbox, prune, prune_after,
}
use kafka_lab.UseCases.Prune.Drained.{Ends, EndsBy, drain-Ends}
use kafka_lab.UseCases.Prune.Tables.{
  InboxKept, OutboxKept, of_inbox, of_outbox, prune_inbox-Round, prune_outbox-Round,
}

module _ (h : Horizons) (w : PruneWeather) where
  -- The rows past their horizons by a clock: an event is, if it was published.
  abbrev pub is_forgotten : InboxRow → Bool
  is_forgotten row = time_after (to_utc (inbox_cutoff h w.now)) row.consumed_at

  abbrev pub is_delivered : OutboxRow → Bool
  is_delivered row = elim row.published_at [
    | none ↦ false
    | some at ↦ time_after (to_utc (outbox_cutoff h w.now)) at
  ]

  abbrev pub remembered : Database → List InboxRow
  remembered db = keep (λ row. not (is_forgotten row)) db.inbox

  abbrev pub owed : Database → List OutboxRow
  owed db = keep (λ row. not (is_delivered row)) db.outbox

  -- A run that ended without an error has left exactly the rows within their horizons, and has
  -- counted the others; one that ended with an error has left those rows too, and perhaps others.
  abbrev FinishedBy : Database → ℕ → ℕ → Option Error → Database → Type 0
  FinishedBy db inbox outbox none db' =
      (db' ≡ record db { inbox = remembered db; outbox = owed db })
      × (inbox + length (remembered db) ≡ length db.inbox)
      × (outbox + length (owed db) ≡ length db.outbox)
  FinishedBy db inbox outbox (some e) db' =
      (remembered db' ≡ remembered db)
      × (owed db' ≡ owed db)
      × (record db' { inbox = db.inbox; outbox = db.outbox } ≡ db)

  abbrev pub Finished : Database → Option (Pruned × Database) → Type 0
  Finished db none = ⊥
  Finished db (some (p, db')) = FinishedBy db p.inbox p.outbox p.error db'

  module _ (batch : ℕ) (db : Database) where
    -- After the inbox: its rows past the horizon are gone, and the other tables are as they were.
    inbox_gone :
        (db' : Database) (total : ℕ)
        → InboxKept (to_utc (inbox_cutoff h w.now)) db db'
        → length (keep is_forgotten db'.inbox) ≡ 0
        → db' ≡ record db { inbox = remembered db }
    unfolding published_before consumed_before
    inbox_gone db' total kept none_left =
        ap (λ (d : Database). record d { inbox = db'.inbox }) kept.1
        ∙ ap (λ l. record db { inbox = l })
            (sym (keep-not_self is_forgotten db'.inbox none_left) ∙ kept.0)

    outbox_gone :
        (start db' : Database)
        → OutboxKept (to_utc (outbox_cutoff h w.now)) start db'
        → length (keep is_delivered db'.outbox) ≡ 0
        → db' ≡ record start { outbox = owed start }
    unfolding published_before consumed_before
    outbox_gone start db' kept none_left =
        ap (λ (d : Database). record d { outbox = db'.outbox }) kept.1
        ∙ ap (λ l. record start { outbox = l })
            (sym (keep-not_self is_delivered db'.outbox none_left) ∙ kept.0)

    outbox-FinishedBy :
        (total deleted : ℕ) (start : Database) (error : Option Error) (db' : Database)
        → start ≡ record db { inbox = remembered db }
        → total ≡ length (keep is_forgotten db.inbox)
        → EndsBy (of_outbox (to_utc (outbox_cutoff h w.now))) batch 0 start deleted error db'
        → FinishedBy db total deleted error db'
    unfolding published_before consumed_before
    outbox-FinishedBy total deleted start none db' e counted (kept, left, sum) =
        let same : start.outbox ≡ db.outbox = ap (λ (d : Database). d.outbox) e in
        (
          outbox_gone start db' kept left ∙ ap (λ (d : Database). record d { outbox = owed d }) e,
          omega (arith, length-keep_parts is_forgotten db.inbox),
          omega (
            arith,
            length-keep_parts is_delivered db.outbox,
            ap (λ l. length (keep is_delivered l)) same,
          ),
        )
    outbox-FinishedBy total deleted start (some x) db' e counted (kept, less) =
        let same : start.outbox ≡ db.outbox = ap (λ (d : Database). d.outbox) e in
        (
          ap (λ (d : Database). remembered d) kept.1
              ∙ ap (λ (d : Database). remembered d) e
              ∙ keep-keep (λ row. not (is_forgotten row)) db.inbox,
          kept.0 ∙ ap (λ l. keep (λ row. not (is_delivered row)) l) same,
          ap (λ (d : Database). record d { inbox = db.inbox; outbox = db.outbox }) kept.1
              ∙ ap (λ (d : Database). record d { inbox = db.inbox; outbox = db.outbox }) e,
        )

    outbox-Finished :
        (total : ℕ) (start : Database)
        → start ≡ record db { inbox = remembered db }
        → total ≡ length (keep is_forgotten db.inbox)
        → (end : Option (Drain × Database))
        → Ends (of_outbox (to_utc (outbox_cutoff h w.now))) batch 0 start end
        → Finished db (
            Option.map
              (λ (last : Drain × Database).
                (record { inbox = total; outbox = last.0.total; error = last.0.error }, last.1))
              end)
    outbox-Finished total start e counted none x = x
    outbox-Finished total start e counted (some (end, db')) x =
        outbox-FinishedBy total end.total start end.error db' e counted x

    inbox-Finished :
        (fuel total : ℕ) (error : Option Error) (db' : Database)
        → 0 < batch
        → length db.outbox < fuel
        → EndsBy (of_inbox (to_utc (inbox_cutoff h w.now))) batch 0 db total error db'
        → Finished db (prune_after fuel h batch w (record { total = total; error = error }, db'))
    unfolding prune_after drain_outbox published_before consumed_before
    inbox-Finished fuel total none db' pos enough (kept, left, sum) =
        let gone = inbox_gone db' total kept left in
        let same : db'.outbox ≡ db.outbox = ap (λ (d : Database). d.outbox) kept.1 in
        outbox-Finished total db' gone (omega (arith, sum)) (drain_outbox fuel h batch w db') (
          drain-Ends (of_outbox (to_utc (outbox_cutoff h w.now))) batch fuel 0 0
            (λ i. prune_outbox (w.outbox_answers i) (outbox_cutoff h w.now) batch) db' pos
            (omega (
              arith,
              length-keep_parts is_delivered db'.outbox,
              ap (λ (l : List OutboxRow). length l) same,
            ))
            (λ i d. prune_outbox-Round (w.outbox_answers i) (outbox_cutoff h w.now) batch d))
    inbox-Finished fuel total (some x) db' pos enough (kept, less) = (
      kept.0,
      ap (λ (d : Database). owed d) kept.1,
      ap (λ (d : Database). record d { outbox = db.outbox }) kept.1,
    )

    ended-Finished :
        (fuel : ℕ) (end : Option (Drain × Database))
        → 0 < batch
        → length db.outbox < fuel
        → Ends (of_inbox (to_utc (inbox_cutoff h w.now))) batch 0 db end
        → Finished db (elim end [ none ↦ none | some inbox ↦ prune_after fuel h batch w inbox ])
    ended-Finished fuel none pos enough x = x
    ended-Finished fuel (some (end, db')) pos enough x =
        inbox-Finished fuel end.total end.error db' pos enough x

    -- With a positive batch and more rounds than either table has rows, a run of housekeeping comes to
    -- an end, whatever its statements are answered. Without an error it has left exactly the rows of
    -- the inbox and of the outbox that are within their horizons, unpublished ones among them, and
    -- has counted the others; with an error it has left at least those. All else is as it was.
    pub prune-Finished :
        (fuel : ℕ)
        → 0 < batch
        → length db.inbox < fuel
        → length db.outbox < fuel
        → Finished db (prune fuel h batch w db)
    unfolding prune drain_inbox published_before consumed_before
    prune-Finished fuel pos enough_in enough_out =
        ended-Finished fuel (drain_inbox fuel h batch w db) pos enough_out (
          drain-Ends (of_inbox (to_utc (inbox_cutoff h w.now))) batch fuel 0 0
            (λ i. prune_inbox (w.inbox_answers i) (inbox_cutoff h w.now) batch) db pos
            (omega (arith, length-keep_parts is_forgotten db.inbox))
            (λ i d. prune_inbox-Round (w.inbox_answers i) (inbox_cutoff h w.now) batch d))
