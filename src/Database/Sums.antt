-- ===== src/Database/Sums.antt =====
-- The upsert of the totals, against the sums that it stands for.
use kafka_lab.Base.{
  Bool, Bool-cases, List, [], any, arith, false, if◌then◌else◌, inl, inr, refl, true, ◌&&◌, ◌||◌,
  ◌∷◌, ◌≡◌,
}
use kafka_lab.Base.Int.{ℤ, ◌+ℤ◌}
use kafka_lab.Base.Text.{Text, text_eq, text_eq_iff, text_eq_sym}
use kafka_lab.Base.Time.{Time}
use kafka_lab.Database.{TotalRow}
use kafka_lab.Database.Totals.{
  Column, authorized_column, captured_column, fresh_total, get_column, is_total_of, raised,
  refunded_column, sum_of, upsert_total,
}

abbrev pub column_eq : Column → Column → Bool
column_eq authorized_column authorized_column = true
column_eq captured_column captured_column = true
column_eq refunded_column refunded_column = true
column_eq _ _ = false

abbrev pub same_sum : Text → Text → Column → Text → Text → Column → Bool
same_sum m c col m' c' col' = text_eq m m' && text_eq c c' && column_eq col col'

get_column-raised :
    (col col' : Column) (minor : ℤ) (at : Time) (row : TotalRow)
    → get_column col' (raised col minor at row)
      ≡ (if column_eq col col' then get_column col' row +ℤ minor else get_column col' row)
get_column-raised col col' minor at row = ground arith

-- One merchant and currency is the row's if it is another that is.
is_total_of_same :
    (m c m' c' : Text) (row : TotalRow)
    → is_total_of m c row ≡ true
    → is_total_of m' c' row ≡ (text_eq m m' && text_eq c c')
is_total_of_same m c m' c' row h =
    ground (arith, text_eq_iff row.merchant_id m, text_eq_iff row.currency c)

is_total_of_other :
    (m c m' c' : Text) (row : TotalRow)
    → is_total_of m c row ≡ false
    → is_total_of m' c' row ≡ true
    → (text_eq m m' && text_eq c c') ≡ false
is_total_of_other m c m' c' row h h' = ground (
  arith,
  text_eq_iff row.merchant_id m',
  text_eq_iff row.currency c',
  text_eq_iff m m',
  text_eq_iff c c',
)

-- An upsert raises the one sum that it names by its amount, and no other.
pub sum_of-upsert_total :
    (m c : Text) (col : Column) (minor : ℤ) (at : Time) (rows : List TotalRow) (m' c' : Text)
    (col' : Column)
    → sum_of m' c' col' (upsert_total m c col minor at rows) ≡ (
        if same_sum m c col m' c' col'
        then sum_of m' c' col' rows +ℤ minor
        else sum_of m' c' col' rows)
unfolding sum_of upsert_total
sum_of-upsert_total m c col minor at [] m' c' col' =
    ground (arith, get_column-raised col col' minor at (fresh_total m c at))
sum_of-upsert_total m c col minor at (row ∷ rows) m' c' col' =
    elim (Bool-cases (is_total_of m c row)) [
      | inl here ↦
          ground
            (arith, is_total_of_same m c m' c' row here, get_column-raised col col' minor at row)
      | inr there ↦ elim (Bool-cases (is_total_of m' c' row)) [
        | inl found ↦ ground (arith, is_total_of_other m c m' c' row there found)
        | inr missing ↦ ground (arith, sum_of-upsert_total m c col minor at rows m' c' col')
      ]
    ]

-- A merchant has one row in a currency, the primary key of the table.
abbrev pub AreDistinctTotals : List TotalRow → Type 0
AreDistinctTotals [] = Unit {0}
AreDistinctTotals (row ∷ rows) =
    (any (is_total_of row.merchant_id row.currency) rows ≡ false) × AreDistinctTotals rows

-- A raised row is the same merchant's and currency's.
is_total_of-raised :
    (m c : Text) (col : Column) (minor : ℤ) (at : Time) (row : TotalRow)
    → is_total_of m c (raised col minor at row) ≡ is_total_of m c row
is_total_of-raised m c authorized_column minor at row = refl
is_total_of-raised m c captured_column minor at row = refl
is_total_of-raised m c refunded_column minor at row = refl

any-upsert_total :
    (m c : Text) (col : Column) (minor : ℤ) (at : Time) (m' c' : Text) (rows : List TotalRow)
    → any (is_total_of m' c') (upsert_total m c col minor at rows)
      ≡ (any (is_total_of m' c') rows || (text_eq m m' && text_eq c c'))
unfolding upsert_total
any-upsert_total m c col minor at m' c' [] =
    ground (arith, is_total_of-raised m' c' col minor at (fresh_total m c at))
any-upsert_total m c col minor at m' c' (row ∷ rows) = elim (Bool-cases (is_total_of m c row)) [
  | inl here ↦ rw here (
      ground
        (arith, is_total_of-raised m' c' col minor at row, is_total_of_same m c m' c' row here))
  | inr other ↦ rw other (ground (arith, any-upsert_total m c col minor at m' c' rows))
]

raised_first :
    (col : Column) (minor : ℤ) (at : Time) (row : TotalRow) (rows : List TotalRow)
    → AreDistinctTotals (row ∷ rows)
    → AreDistinctTotals (raised col minor at row ∷ rows)
raised_first authorized_column minor at row rows h = h
raised_first captured_column minor at row rows h = h
raised_first refunded_column minor at row rows h = h

pub upsert_total-AreDistinctTotals :
    (m c : Text) (col : Column) (minor : ℤ) (at : Time) (rows : List TotalRow)
    → AreDistinctTotals rows
    → AreDistinctTotals (upsert_total m c col minor at rows)
unfolding upsert_total
upsert_total-AreDistinctTotals m c col minor at [] h = (refl, tt)
upsert_total-AreDistinctTotals m c col minor at (row ∷ rows) h =
    elim (Bool-cases (is_total_of m c row)) [
      | inl here ↦ rw here (raised_first col minor at row rows h)
      | inr other ↦ rw other (
        ground (
          arith,
          any-upsert_total m c col minor at row.merchant_id row.currency rows,
          text_eq_sym m row.merchant_id,
          text_eq_sym c row.currency,
        ),
        upsert_total-AreDistinctTotals m c col minor at rows h.1,
      )
    ]
