-- ===== src/UseCases/Relay/Backlog.antt =====
-- What marking a claim does to the backlog (internal/infrastructure/postgres/outbox.go).
use kafka_lab.Base.{
  Bool, Bool-cases, List, [], ap, arith, false, if◌then◌else◌, inl, inr, keep, length, not, refl,
  suc, true, zero, ℕ, ◌&&◌, ◌+◌, ◌<◌, ◌==◌, ◌∷◌, ◌≡◌, ◌≤◌,
}
use kafka_lab.Base.Time.{Time}
use kafka_lab.Database.{OutboxRow}
use kafka_lab.Database.Outbox.{claimable, has_id, is_unpublished, mark_rows, take_rows}
use kafka_lab.UseCases.Relay.{ids_of}
use kafka_lab.UseCases.Relay.Announced.{IsAbove, taken-no, taken-not_below, taken-yes}

-- How many rows wait.
abbrev pub waiting_rows : List OutboxRow → ℕ
waiting_rows rows = length (keep is_unpublished rows)

mark_rows-cons_below :
    (i n : ℕ) (ids : List ℕ) (at : Time) (rows : List OutboxRow)
    → i < n
    → IsAbove n rows
    → mark_rows (i ∷ ids) at rows ≡ mark_rows ids at rows
unfolding mark_rows
mark_rows-cons_below i n ids at [] h above = refl
mark_rows-cons_below i n ids at (row ∷ rows) h above =
    let rest = mark_rows-cons_below i (row.id + 1) ids at rows (omega arith) above.1 in
    let other : (i == row.id) ≡ false = ground arith in rw (other, rest) refl

mark_rows-nil : (at : Time) (rows : List OutboxRow) → mark_rows [] at rows ≡ rows
unfolding mark_rows
mark_rows-nil at [] = refl
mark_rows-nil at (row ∷ rows) = ap (λ l. row ∷ l) (mark_rows-nil at rows)

-- The head of the table is claimed, and taken out of the backlog.
waiting-claimed :
    (ids : List ℕ) (at : Time) (row : OutboxRow) (rows : List OutboxRow)
    → is_unpublished row ≡ true
    → waiting_rows (mark_rows (row.id ∷ ids) at (row ∷ rows))
      ≡ waiting_rows (mark_rows (row.id ∷ ids) at rows)
unfolding mark_rows
waiting-claimed ids at row rows e =
    let own : has_id (row.id ∷ ids) row.id ≡ true = ground arith in rw (own, e) refl

-- The head of the table is not claimed.
waiting-kept :
    (ids : List ℕ) (at : Time) (row : OutboxRow) (rows : List OutboxRow)
    → has_id ids row.id ≡ false
    → waiting_rows (mark_rows ids at (row ∷ rows))
      ≡ (if is_unpublished row then 1 else 0) + waiting_rows (mark_rows ids at rows)
unfolding mark_rows
waiting-kept ids at row rows e = rw e (ground arith)

waiting_rows-marked :
    (p : OutboxRow → Bool) (k n : ℕ) (at : Time) (rows : List OutboxRow)
    → ((row : OutboxRow) → p row ≡ true → is_unpublished row ≡ true)
    → IsAbove n rows
    → let claimed = take_rows k (keep p rows) in
      waiting_rows (mark_rows (ids_of claimed) at rows) + length claimed ≡ waiting_rows rows
unfolding take_rows
waiting_rows-marked p zero n at rows only above = rw (mark_rows-nil at rows) (omega arith)
waiting_rows-marked p (suc k) n at [] only above = rw (mark_rows-nil at []) refl
waiting_rows-marked p (suc k) n at (row ∷ rows) only above = elim (Bool-cases (p row)) [
  | inl e ↦
      let claimed = take_rows k (keep p rows) in
      let ih = waiting_rows-marked p k (row.id + 1) at rows only above.1 in
      let below =
        mark_rows-cons_below row.id (row.id + 1) (ids_of claimed) at rows (omega arith) above.1 in
      rw
        (taken-yes p k row rows e, waiting-claimed (ids_of claimed) at row rows (only row e), below)
        (rw (only row e) (omega (arith, ih)))
  | inr e ↦
      let ih = waiting_rows-marked p (suc k) (row.id + 1) at rows only above.1 in
      let absent = taken-not_below p (suc k) row.id (row.id + 1) rows (omega arith) above.1 in
      rw
        (
          taken-no p (suc k) row rows e,
          waiting-kept (ids_of (take_rows (suc k) (keep p rows))) at row rows absent,
        )
        (ground (arith, ih))
]

only_unpublished :
    (locked : ℕ → Bool) (row : OutboxRow)
    → (is_unpublished row && not (locked row.id)) ≡ true
    → is_unpublished row ≡ true
only_unpublished locked row h = ground arith

length-take_rows : (k : ℕ) (rows : List OutboxRow) → length (take_rows k rows) ≤ k
unfolding take_rows
length-take_rows zero rows = omega arith
length-take_rows (suc k) [] = omega arith
length-take_rows (suc k) (row ∷ rows) = omega (arith, length-take_rows k rows)

-- In an outbox that is in the order of its ids, marking the rows of a claim takes exactly as many
-- rows out of the backlog as were claimed, whichever rows others hold, and those are no more than
-- the limit.
pub waiting_rows-claimed :
    (locked : ℕ → Bool) (limit : ℕ) (at : Time) (rows : List OutboxRow)
    → IsAbove 0 rows
    → let claimed = claimable locked limit rows in
      (waiting_rows (mark_rows (ids_of claimed) at rows) + length claimed ≡ waiting_rows rows)
      × (length claimed ≤ limit)
unfolding claimable
waiting_rows-claimed locked limit at rows above = (
  waiting_rows-marked (λ row. is_unpublished row && not (locked row.id)) limit 0 at rows
      (only_unpublished locked) above,
  length-take_rows limit (keep (λ row. is_unpublished row && not (locked row.id)) rows),
)
