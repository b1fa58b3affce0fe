-- ===== src/UseCases/Prune/Tables.antt =====
-- The two tables that a run deletes from (internal/infrastructure/postgres/prune.go).
use kafka_lab.Base.{
  Bool-cases, List, ap, arith, false, inl, inr, keep, length, ltb, not, refl, true, ℕ, ◌<◌, ◌∙◌,
  ◌≡◌, ◌≤◌, ◌⊎◌,
}
use kafka_lab.Base.Time.{Time, to_utc}
use kafka_lab.Database.{Database, InboxRow, OutboxRow}
use kafka_lab.Database.Transaction.{CommitAnswer, committed, failed}
use kafka_lab.Database.Prune.{
  consumed_before, delete_first, delete_oldest, on_its_own, prune_inbox, prune_outbox,
  published_before,
}
use kafka_lab.Database.Prune.Deletes.{Deletes, delete_first-Deletes, delete_oldest-Deletes}
use kafka_lab.UseCases.Prune.Drained.{Round, Target}

abbrev pub InboxKept : Time → Database → Database → Type 0
InboxKept before db db' =
    (keep (λ row. not (consumed_before before row)) db'.inbox
      ≡ keep (λ row. not (consumed_before before row)) db.inbox)
    × (record db' { inbox = db.inbox } ≡ db)

abbrev pub OutboxKept : Time → Database → Database → Type 0
OutboxKept before db db' =
    (keep (λ row. not (published_before before row)) db'.outbox
      ≡ keep (λ row. not (published_before before row)) db.outbox)
    × (record db' { outbox = db.outbox } ≡ db)

-- Of the inbox the rows consumed before are to go, and all else stays.
abbrev pub of_inbox : Time → Target
of_inbox before = record {
  marked = λ db. length (keep (consumed_before before) db.inbox);
  Keeps = InboxKept before;
  keeps_on =
      λ a b c k l. (l.0 ∙ k.0, ap (λ (d : Database). record d { inbox = a.inbox }) l.1 ∙ k.1);
}

-- Of the outbox the rows published before are to go, and all else stays.
abbrev pub of_outbox : Time → Target
of_outbox before = record {
  marked = λ db. length (keep (published_before before) db.outbox);
  Keeps = OutboxKept before;
  keeps_on =
      λ a b c k l. (l.0 ∙ k.0, ap (λ (d : Database). record d { outbox = a.outbox }) l.1 ∙ k.1);
}

full_or_empty :
    (limit deleted left : ℕ) → (deleted < limit → left ≡ 0) → (limit ≤ deleted) ⊎ (left ≡ 0)
full_or_empty limit deleted left h = elim (Bool-cases (ltb deleted limit)) [
  | inl short ↦ inr (h (ground arith))
  | inr long ↦ inl (ground arith)
]

inbox-Round :
    (answer : CommitAnswer) (before : Time) (limit : ℕ) (db : Database) (r : List InboxRow × ℕ)
    → Deletes (consumed_before before) limit db.inbox r
    → Round (of_inbox before) limit db (on_its_own answer r.1 db (record db { inbox = r.0 }))
unfolding on_its_own
inbox-Round committed before limit db r d = ((d.0, refl), d.1, full_or_empty limit r.1 _ d.3)
inbox-Round (failed e true) before limit db r d = ((d.0, refl), omega (arith, d.1))
inbox-Round (failed e false) before limit db r d = ((refl, refl), omega arith)

pub prune_inbox-Round :
    (answer : CommitAnswer) (before : Time) (limit : ℕ) (db : Database)
    → Round (of_inbox (to_utc before)) limit db (prune_inbox answer before limit db)
unfolding prune_inbox
prune_inbox-Round answer before limit db =
    inbox-Round answer (to_utc before) limit db (delete_oldest (to_utc before) limit db.inbox)
      (delete_oldest-Deletes (to_utc before) limit db.inbox)

outbox-Round :
    (answer : CommitAnswer) (before : Time) (limit : ℕ) (db : Database) (r : List OutboxRow × ℕ)
    → Deletes (published_before before) limit db.outbox r
    → Round (of_outbox before) limit db (on_its_own answer r.1 db (record db { outbox = r.0 }))
unfolding on_its_own
outbox-Round committed before limit db r d = ((d.0, refl), d.1, full_or_empty limit r.1 _ d.3)
outbox-Round (failed e true) before limit db r d = ((d.0, refl), omega (arith, d.1))
outbox-Round (failed e false) before limit db r d = ((refl, refl), omega arith)

pub prune_outbox-Round :
    (answer : CommitAnswer) (before : Time) (limit : ℕ) (db : Database)
    → Round (of_outbox (to_utc before)) limit db (prune_outbox answer before limit db)
unfolding prune_outbox
prune_outbox-Round answer before limit db =
    outbox-Round answer (to_utc before) limit db (delete_first (to_utc before) limit db.outbox)
      (delete_first-Deletes (to_utc before) limit db.outbox)
