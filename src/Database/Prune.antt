-- ===== src/Database/Prune.antt =====
-- internal/infrastructure/postgres/prune.go: deleting rows of the bookkeeping tables, a batch at a
-- time. Ids and event ids are primary keys, so the rows with the selected keys are the selected rows.
pub mod Deletes
use kafka_lab.Base.{
  Bool, List, Option, [], false, if◌then◌else◌, none, not, some, suc, zero, ℕ, ◌&&◌, ◌+◌, ◌∷◌,
}
use kafka_lab.Base.Time.{Time, time_after, to_utc}
use kafka_lab.Base.Errors.{Result, err, join, ok, retention_storage}
use kafka_lab.Database.{Action, Database, InboxRow, OutboxRow}
use kafka_lab.Database.Transaction.{CommitAnswer, committed, failed}

-- `published_at < $1`, which is not true of NULL.
unfoldable pub published_before : Time → OutboxRow → Bool
published_before before row = elim row.published_at [
  | none ↦ false
  | some at ↦ time_after before at
]

-- `consumed_at < $1`
unfoldable pub consumed_before : Time → InboxRow → Bool
consumed_before before row = time_after before row.consumed_at

-- DELETE … WHERE id IN (SELECT id … WHERE published_at < $1 ORDER BY id LIMIT $2): the rows that are
-- left, and how many were deleted.
unfoldable pub delete_first : Time → ℕ → List OutboxRow → List OutboxRow × ℕ
delete_first before zero rows = (rows, 0)
delete_first before (suc n) [] = ([], 0)
delete_first before (suc n) (row ∷ rows) =
    let (left, deleted) = delete_first before n rows in
    let (others, found) = delete_first before (suc n) rows in
    if published_before before row then (left, deleted + 1) else (row ∷ others, found)

-- The row that `ORDER BY consumed_at` puts first among those consumed before, and the others.
unfoldable pub take_oldest : Time → List InboxRow → Option (InboxRow × List InboxRow)
take_oldest before [] = none
take_oldest before (row ∷ rows) = elim (take_oldest before rows) [
  | none ↦ if consumed_before before row then some (row, rows) else none
  | some (oldest, others) ↦
      if consumed_before before row && not (time_after row.consumed_at oldest.consumed_at)
      then some (row, rows)
      else some (oldest, row ∷ others)
]

-- DELETE … WHERE event_id IN (SELECT event_id … WHERE consumed_at < $1 ORDER BY consumed_at LIMIT $2)
unfoldable pub delete_oldest : Time → ℕ → List InboxRow → List InboxRow × ℕ
unfolding take_oldest
delete_oldest before zero rows = (rows, 0)
delete_oldest before (suc n) rows = elim (take_oldest before rows) [
  | none ↦ (rows, 0)
  | some (oldest, others) ↦
      let (left, deleted) = delete_oldest before n others in (left, deleted + 1)
]

-- A statement that commits on its own: after an error it may have been carried out all the same.
unfoldable pub on_its_own : CommitAnswer → ℕ → Database → Database → Result ℕ × Database
on_its_own committed deleted db db' = (ok deleted, db')
on_its_own (failed e applied) deleted db db' =
    (err (join (retention_storage ∷ []) e), if applied then db' else db)

-- `PruneStore.PruneInbox`
unfoldable pub prune_inbox : CommitAnswer → Time → ℕ → Action ℕ
unfolding delete_oldest on_its_own
prune_inbox answer before limit db =
    let (left, deleted) = delete_oldest (to_utc before) limit db.inbox in
    on_its_own answer deleted db (record db { inbox = left })

-- `PruneStore.PruneOutbox`
unfoldable pub prune_outbox : CommitAnswer → Time → ℕ → Action ℕ
unfolding delete_first on_its_own
prune_outbox answer before limit db =
    let (left, deleted) = delete_first (to_utc before) limit db.outbox in
    on_its_own answer deleted db (record db { outbox = left })
