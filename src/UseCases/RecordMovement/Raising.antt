-- ===== src/UseCases/RecordMovement/Raising.antt =====
-- Which sum an entry raises, by its kind (internal/infrastructure/postgres/totals.go).
use kafka_lab.Base.{Bool-cases, arith, inl, inr, refl, some, ◌==◌, ◌≡◌, ◌⊎◌}
use kafka_lab.Merchant.{Kind, kind_authorized, kind_captured, kind_refunded}
use kafka_lab.Database.Totals.{
  Column, authorized_column, captured_column, refunded_column, sum_columns,
}

-- An authorisation raises the authorised sum, a capture the captured one, a refund the refunded one.
abbrev pub Raises : Kind → Column → Type 0
Raises kind col =
    ((kind ≡ kind_authorized) × (col ≡ authorized_column))
    ⊎ (((kind ≡ kind_captured) × (col ≡ captured_column))
        ⊎ ((kind ≡ kind_refunded) × (col ≡ refunded_column)))

pub sum_columns-Raises :
    (kind : Kind) (col : Column) → sum_columns kind ≡ some col → Raises kind col
unfolding sum_columns
sum_columns-Raises kind col h = elim (Bool-cases (kind == kind_authorized)) [
  | inl a ↦ inl (ground arith)
  | inr a ↦ elim (Bool-cases (kind == kind_captured)) [
    | inl b ↦ inr (inl (ground arith))
    | inr b ↦ elim (Bool-cases (kind == kind_refunded)) [
      | inl c ↦ inr (inr (ground arith))
      | inr c ↦ ground arith
    ]
  ]
]

pub Raises-sum_columns :
    (kind : Kind) (col : Column) → Raises kind col → sum_columns kind ≡ some col
unfolding sum_columns
Raises-sum_columns kind col (inl (k, c)) = rw (k, c) refl
Raises-sum_columns kind col (inr (inl (k, c))) = rw (k, c) refl
Raises-sum_columns kind col (inr (inr (k, c))) = rw (k, c) refl
