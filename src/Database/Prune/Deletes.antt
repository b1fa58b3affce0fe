-- ===== src/Database/Prune/Deletes.antt =====
-- What one delete takes away (internal/infrastructure/postgres/prune.go).
use kafka_lab.Base.{
  Bool, Bool-cases, List, Option, [], ap, arith, if◌then◌else◌, inl, inr, keep, length, none, not,
  refl, some, suc, zero, ℕ, ◌&&◌, ◌+◌, ◌<◌, ◌∙◌, ◌∷◌, ◌≡◌, ◌≤◌,
}
use kafka_lab.Base.Time.{Time, time_after}
use kafka_lab.Database.{InboxRow, OutboxRow}
use kafka_lab.Database.Prune.{
  consumed_before, delete_first, delete_oldest, published_before, take_oldest,
}

-- Of the rows that a test marks, `deleted` are gone, which are all unless that is the limit; the
-- others stay as they are, in their order.
abbrev pub Deletes : {A : Type 0} → (A → Bool) → ℕ → List A → List A × ℕ → Type 0
Deletes marked limit rows (left, deleted) =
    (keep (λ row. not (marked row)) left ≡ keep (λ row. not (marked row)) rows)
    × (length (keep marked left) + deleted ≡ length (keep marked rows))
    × (deleted ≤ limit)
    × (deleted < limit → length (keep marked left) ≡ 0)

pub delete_first-Deletes :
    (before : Time) (limit : ℕ) (rows : List OutboxRow)
    → Deletes (published_before before) limit rows (delete_first before limit rows)
unfolding delete_first
delete_first-Deletes before zero rows = (refl, omega arith, omega arith, λ h. absurd (omega arith))
delete_first-Deletes before (suc n) [] = (refl, omega arith, omega arith, λ h. refl)
delete_first-Deletes before (suc n) (row ∷ rows) =
    let l = delete_first-Deletes before n rows in
    let o = delete_first-Deletes before (suc n) rows in
    elim (Bool-cases (published_before before row)) [
      | inl e ↦ rw e (l.0, omega (arith, l.1), omega (arith, l.2), λ h. l.3 (omega arith))
      | inr e ↦ rw e (rw e (ap (λ rest. row ∷ rest) o.0, o.1, o.2, o.3))
    ]

-- What `take_oldest` says of the rows.
abbrev Takes : Time → List InboxRow → Option (InboxRow × List InboxRow) → Type 0
Takes before rows none = length (keep (consumed_before before) rows) ≡ 0
Takes before rows (some (oldest, others)) =
    (keep (λ row. not (consumed_before before row)) others
      ≡ keep (λ row. not (consumed_before before row)) rows)
    × (length (keep (consumed_before before) others) + 1
        ≡ length (keep (consumed_before before) rows))

Takes-cons :
    (before : Time) (row : InboxRow) (rows : List InboxRow)
    (found : Option (InboxRow × List InboxRow))
    → Takes before rows found
    → Takes before (row ∷ rows) (elim found [
      | none ↦ if consumed_before before row then some (row, rows) else none
      | some (oldest, others) ↦
          if consumed_before before row && not (time_after row.consumed_at oldest.consumed_at)
          then some (row, rows)
          else some (oldest, row ∷ others)
    ])
Takes-cons before row rows none t = elim (Bool-cases (consumed_before before row)) [
  | inl e ↦ rw e (rw e (refl, omega (arith, t)))
  | inr e ↦ rw e (rw e t)
]
Takes-cons before row rows (some (oldest, others)) t =
    elim (Bool-cases
      (consumed_before before row && not (time_after row.consumed_at oldest.consumed_at))) [
        | inl e ↦ rw e (ground arith, ground arith)
        | inr e ↦ rw e (ground arith, ground arith)
      ]

take_oldest-Takes :
    (before : Time) (rows : List InboxRow) → Takes before rows (take_oldest before rows)
unfolding take_oldest
take_oldest-Takes before [] = refl
take_oldest-Takes before (row ∷ rows) =
    Takes-cons before row rows (take_oldest before rows) (take_oldest-Takes before rows)

Takes-Deletes :
    (before : Time) (n : ℕ) (rows : List InboxRow) (found : Option (InboxRow × List InboxRow))
    → Takes before rows found
    → ((others : List InboxRow)
        → Deletes (consumed_before before) n others (delete_oldest before n others))
    → Deletes (consumed_before before) (suc n) rows (elim found [
      | none ↦ (rows, 0)
      | some (oldest, others) ↦
          let (left, deleted) = delete_oldest before n others in (left, deleted + 1)
    ])
Takes-Deletes before n rows none t rest = (refl, omega (arith, t), omega arith, λ h. t)
Takes-Deletes before n rows (some (oldest, others)) t rest =
    let d = rest others in
    (d.0 ∙ t.0, omega (arith, d.1, t.1), omega (arith, d.2), λ h. d.3 (omega arith))

pub delete_oldest-Deletes :
    (before : Time) (limit : ℕ) (rows : List InboxRow)
    → Deletes (consumed_before before) limit rows (delete_oldest before limit rows)
unfolding delete_oldest
delete_oldest-Deletes before zero rows = (refl, omega arith, omega arith, λ h. absurd (omega arith))
delete_oldest-Deletes before (suc n) rows =
    Takes-Deletes before n rows (take_oldest before rows) (take_oldest-Takes before rows)
      (delete_oldest-Deletes before n)
