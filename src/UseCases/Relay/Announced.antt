-- ===== src/UseCases/Relay/Announced.antt =====
-- What a sweep leaves behind: no row is marked whose message is not on the topic
-- (internal/application/outbox/relay.go, internal/infrastructure/postgres/outbox.go).
use mathlib.Core.Path.{subst}
use kafka_lab.Base.{
  All, Bool, Bool-cases, List, [], arith, false, inl, inr, keep, refl, suc, sym, true, zero, ℕ, ◌+◌,
  ◌<◌, ◌∷◌, ◌≡◌, ◌≤◌,
}
use kafka_lab.Database.{OutboxRow}
use kafka_lab.Database.Outbox.{has_id, is_unpublished, take_rows}
use kafka_lab.Kafka.Detours.{Produced}
use kafka_lab.Kafka.Publisher.Reading.{IsOnTopic}
use kafka_lab.UseCases.Relay.{Wiring, ids_of}

-- The rows stand in the order of their ids, which are distinct and at least `n`.
abbrev pub IsAbove : ℕ → List OutboxRow → Type 0
IsAbove n [] = Unit {0}
IsAbove n (row ∷ rows) = (n ≤ row.id) × IsAbove (row.id + 1) rows

-- A row that is marked published has its message on the topic.
abbrev pub AreAnnounced : Wiring → List Produced → List OutboxRow → Type 0
AreAnnounced r log rows =
    All (λ row. is_unpublished row ≡ false → IsOnTopic r.json r.encode r.topic log row) rows

pub taken-not_below :
    (p : OutboxRow → Bool) (k i n : ℕ) (rows : List OutboxRow)
    → i < n
    → IsAbove n rows
    → has_id (ids_of (take_rows k (keep p rows))) i ≡ false
unfolding take_rows
taken-not_below p zero i n rows h above = refl
taken-not_below p (suc k) i n [] h above = refl
taken-not_below p (suc k) i n (row ∷ rows) h above = elim (Bool-cases (p row)) [
  | inl e ↦ rw e (ground (arith, taken-not_below p k i (row.id + 1) rows (omega arith) above.1))
  | inr e ↦ rw e (taken-not_below p (suc k) i (row.id + 1) rows (omega arith) above.1)
]

pub taken-yes :
    (p : OutboxRow → Bool) (k : ℕ) (row : OutboxRow) (rows : List OutboxRow)
    → p row ≡ true
    → take_rows (suc k) (keep p (row ∷ rows)) ≡ row ∷ take_rows k (keep p rows)
unfolding take_rows
taken-yes p k row rows e = rw e refl

pub taken-no :
    (p : OutboxRow → Bool) (k : ℕ) (row : OutboxRow) (rows : List OutboxRow)
    → p row ≡ false
    → take_rows k (keep p (row ∷ rows)) ≡ take_rows k (keep p rows)
taken-no p k row rows e = rw e refl

module _ (Q : OutboxRow → Type 0) where
  -- Each row whose id is among the ids has the property.
  abbrev pub Fit : List ℕ → List OutboxRow → Type 0
  Fit ids rows = All (λ row. has_id ids row.id ≡ true → Q row) rows

  Fit-cons :
      (i n : ℕ) (ids : List ℕ) (rows : List OutboxRow)
      → i < n
      → IsAbove n rows
      → Fit ids rows
      → Fit (i ∷ ids) rows
  Fit-cons i n ids [] h above f = tt
  Fit-cons i n ids (row ∷ rows) h above f =
      (λ e. f.0 (ground arith), Fit-cons i (row.id + 1) ids rows (omega arith) above.1 f.1)

  pub taken-Fit :
      (p : OutboxRow → Bool) (k n : ℕ) (rows : List OutboxRow)
      → IsAbove n rows
      → All Q (take_rows k (keep p rows))
      → Fit (ids_of (take_rows k (keep p rows))) rows
  unfolding take_rows
  taken-Fit p k n [] above q = tt
  taken-Fit p zero n (row ∷ rows) above q = (λ e. cc, taken-Fit p zero (row.id + 1) rows above.1 tt)
  taken-Fit p (suc k) n (row ∷ rows) above q = elim (Bool-cases (p row)) [
    | inl e ↦
        subst (λ l. All Q l → Fit (ids_of l) (row ∷ rows)) (sym (taken-yes p k row rows e))
          (λ q'. (
            (λ _. q'.0),
            Fit-cons row.id (row.id + 1) (ids_of (take_rows k (keep p rows))) rows (omega arith)
                above.1 (taken-Fit p k (row.id + 1) rows above.1 q'.1),
          ))
          q
    | inr e ↦
        subst (λ l. All Q l → Fit (ids_of l) (row ∷ rows)) (sym (taken-no p (suc k) row rows e))
          (λ q'.
            let absent = taken-not_below p (suc k) row.id (row.id + 1) rows (omega arith) above.1 in
            (λ present. cc, taken-Fit p (suc k) (row.id + 1) rows above.1 q'))
          q
  ]
