-- ===== src/UseCases/ReadTotals/Projection.antt =====
-- What a merchant is answered are the sums over the events that were counted
-- (internal/application/merchants/read_totals.go).
use kafka_lab.Base.{
  All, All-imp, Bool, Bool-cases, List, [], any, ap, arith, false, inl, inr, keep, refl, sym, true,
  ◌||◌, ◌∙◌, ◌∷◌, ◌≡◌,
}
use kafka_lab.Base.Text.{
  Text, text_eq_iff, text_eq_refl, text_eq_sym, text_leb, text_leb_total, text_leb_trans,
}
use kafka_lab.Database.{TotalRow}
use kafka_lab.Database.Totals.{Column, get_column, is_total_of, sum_of}
use kafka_lab.Database.Sums.{AreDistinctTotals}
use kafka_lab.UseCases.ReadTotals.{by_currency, insert_total, is_merchants}

insert_total-All :
    (Q : TotalRow → Type 0) (row : TotalRow) (rows : List TotalRow)
    → Q row
    → All Q rows
    → All Q (insert_total row rows)
unfolding insert_total
insert_total-All Q row [] q h = (q, tt)
insert_total-All Q row (other ∷ rows) q h =
    elim (Bool-cases (text_leb row.currency other.currency)) [
      | inl e ↦ rw e (q, h)
      | inr e ↦ rw e (h.0, insert_total-All Q row rows q h.1)
    ]

by_currency-All :
    (Q : TotalRow → Type 0) (rows : List TotalRow) → All Q rows → All Q (by_currency rows)
unfolding by_currency
by_currency-All Q [] h = tt
by_currency-All Q (row ∷ rows) h =
    insert_total-All Q row (by_currency rows) h.0 (by_currency-All Q rows h.1)

-- In order of currency: each total is before those behind it.
abbrev pub AreInOrder : List TotalRow → Type 0
AreInOrder [] = Unit {0}
AreInOrder (row ∷ rows) =
    All (λ later. text_leb row.currency later.currency ≡ true) rows × AreInOrder rows

insert_total-AreInOrder :
    (row : TotalRow) (rows : List TotalRow) → AreInOrder rows → AreInOrder (insert_total row rows)
unfolding insert_total
insert_total-AreInOrder row [] h = (tt, tt)
insert_total-AreInOrder row (other ∷ rows) h =
    elim (Bool-cases (text_leb row.currency other.currency)) [
      | inl e ↦ rw e (
        (
          e,
          All-imp _ _ rows
              (λ later l. text_leb_trans row.currency other.currency later.currency e l) h.0,
        ),
        h,
      )
      | inr e ↦ rw e (
        insert_total-All _ row rows (text_leb_total row.currency other.currency e) h.0,
        insert_total-AreInOrder row rows h.1,
      )
    ]

pub by_currency-AreInOrder : (rows : List TotalRow) → AreInOrder (by_currency rows)
unfolding by_currency
by_currency-AreInOrder [] = tt
by_currency-AreInOrder (row ∷ rows) =
    insert_total-AreInOrder row (by_currency rows) (by_currency-AreInOrder rows)

any-insert_total :
    (p : TotalRow → Bool) (row : TotalRow) (rows : List TotalRow)
    → any p (insert_total row rows) ≡ (p row || any p rows)
unfolding insert_total
any-insert_total p row [] = refl
any-insert_total p row (other ∷ rows) = ground (arith, any-insert_total p row rows)

pub any-by_currency :
    (p : TotalRow → Bool) (rows : List TotalRow) → any p (by_currency rows) ≡ any p rows
unfolding by_currency
any-by_currency p [] = refl
any-by_currency p (row ∷ rows) =
    any-insert_total p row (by_currency rows) ∙ ap (λ b. p row || b) (any-by_currency p rows)

any-false-All :
    (p : TotalRow → Bool) (rows : List TotalRow)
    → any p rows ≡ false
    → All (λ row. p row ≡ false) rows
any-false-All p [] h = tt
any-false-All p (row ∷ rows) h = (ground arith, any-false-All p rows (ground arith))

-- Where a row of the merchant stands, the merchant's sums in its currency are the row's.
abbrev pub IsSumOf : Text → List TotalRow → TotalRow → Type 0
IsSumOf m rows row =
    is_merchants m row ≡ true → (col : Column) → sum_of m row.currency col rows ≡ get_column col row

behind_other :
    (m : Text) (other : TotalRow) (rows later : List TotalRow)
    → All (λ row. is_total_of other.merchant_id other.currency row ≡ false) later
    → All (IsSumOf m rows) later
    → All (IsSumOf m (other ∷ rows)) later
unfolding sum_of
behind_other m other rows [] apart h = tt
behind_other m other rows (row ∷ later) apart h = (
  λ its col. ground (
    arith,
    h.0 its col,
    text_eq_iff other.merchant_id m,
    text_eq_iff row.merchant_id m,
    text_eq_sym other.currency row.currency,
    apart.0,
    text_eq_refl row.merchant_id,
  ),
  behind_other m other rows later apart.1 h.1,
)

rows-IsSumOf :
    (m : Text) (rows : List TotalRow) → AreDistinctTotals rows → All (IsSumOf m rows) rows
unfolding sum_of
rows-IsSumOf m [] h = tt
rows-IsSumOf m (row ∷ rows) h = (
  λ its col. ground (arith, its, text_eq_refl row.currency),
  behind_other m row rows rows (any-false-All _ rows h.0) (rows-IsSumOf m rows h.1),
)

kept_sums :
    (m : Text) (rows kept : List TotalRow)
    → All (IsSumOf m rows) kept
    → All
        (λ row. (col : Column) → get_column col row ≡ sum_of m row.currency col rows)
        (keep (is_merchants m) kept)
kept_sums m rows [] h = tt
kept_sums m rows (row ∷ kept) h = elim (Bool-cases (is_merchants m row)) [
  | inl e ↦ rw e (λ col. sym (h.0 e col), kept_sums m rows kept h.1)
  | inr e ↦ rw e (kept_sums m rows kept h.1)
]

-- Every row that a merchant is answered from holds the merchant's sums in its currency.
pub answered_rows :
    (m : Text) (rows : List TotalRow)
    → AreDistinctTotals rows
    → All
        (λ row. (col : Column) → get_column col row ≡ sum_of m row.currency col rows)
        (by_currency (keep (is_merchants m) rows))
answered_rows m rows h =
    by_currency-All _ (keep (is_merchants m) rows) (kept_sums m rows rows (rows-IsSumOf m rows h))
