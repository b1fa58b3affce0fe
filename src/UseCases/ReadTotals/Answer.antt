-- ===== src/UseCases/ReadTotals/Answer.antt =====
-- What the read of a merchant's totals answers (internal/application/merchants/read_totals.go).
use mathlib.Core.Path.{subst}
use kafka_lab.Base.{
  All, Bool, List, Option, [], all, any, ap, arith, false, inl, inr, keep, none, refl, some, sym,
  true, ◌&&◌, ◌∙◌, ◌∷◌, ◌≡◌, ◌≢◌, ◌⊎◌,
}
use kafka_lab.Base.Int.{ℤ}
use kafka_lab.Base.Text.{Text, text_eq, text_leb}
use kafka_lab.Base.Errors.{>>=-eq-ok, Error, Result, err, is_ok, merchant_storage, ok, wrap, ◌>>=◌}
use kafka_lab.Merchant.{
  Currency, Entry, MerchantKey, Total, new_total, parse_currency, parse_merchant_key,
}
use kafka_lab.Database.{Database, TotalRow}
use kafka_lab.Database.Totals.{
  Column, authorized_column, captured_column, get_column, is_total_of, refunded_column, sum_of,
}
use kafka_lab.UseCases.ReadTotals.{
  by_currency, execute_read, insert_total, is_merchants, scan_all, scan_total, totals_for,
  totals_of,
}
use kafka_lab.UseCases.ReadTotals.Projection.{
  AreInOrder, answered_rows, any-by_currency, by_currency-AreInOrder,
}
use kafka_lab.UseCases.RecordMovement.Ledger.{IsLedger, sum_log}

abbrev pub total_column : Column → Total → ℤ
total_column authorized_column t = t.authorized
total_column captured_column t = t.captured
total_column refunded_column t = t.refunded

-- A total is what its row holds.
abbrev Shows : TotalRow → Total → Type 0
Shows row t =
    (t.currency.code ≡ row.currency) × ((col : Column) → total_column col t ≡ get_column col row)

abbrev ShowsAll : List TotalRow → List Total → Type 0
ShowsAll [] [] = Unit {0}
ShowsAll (row ∷ rows) (t ∷ ts) = Shows row t × ShowsAll rows ts
ShowsAll _ _ = ⊥

parse_currency-same : (code : Text) (c : Currency) → parse_currency code ≡ ok c → c.code ≡ code
unfolding parse_currency
parse_currency-same code c h = ground arith

scan_total-Shows : (row : TotalRow) (t : Total) → scan_total row ≡ ok t → Shows row t
unfolding scan_total new_total
scan_total-Shows row t h =
    let (c, parsed, rest) = >>=-eq-ok (parse_currency row.currency) _ h in
    (ground (arith, parse_currency-same row.currency c parsed), λ col. ground arith)

scan_all-ShowsAll :
    (rows : List TotalRow) (ts : List Total) → scan_all rows ≡ ok ts → ShowsAll rows ts
unfolding scan_all
scan_all-ShowsAll [] [] h = tt
scan_all-ShowsAll [] (t ∷ ts) h = ground arith
scan_all-ShowsAll (row ∷ rows) ts h =
    let (t, scanned, rest) = >>=-eq-ok (scan_total row) _ h in
    let (ts', scanned', last) = >>=-eq-ok (scan_all rows) _ rest in
    subst (ShowsAll (row ∷ rows)) {x = t ∷ ts'} {y = ts} (ground arith)
      (scan_total-Shows row t scanned, scan_all-ShowsAll rows ts' scanned')

ShowsAll-All :
    (Q : TotalRow → Type 0) (R : Total → Type 0) (rows : List TotalRow) (ts : List Total)
    → ((row : TotalRow) (t : Total) → Shows row t → Q row → R t)
    → ShowsAll rows ts
    → All Q rows
    → All R ts
ShowsAll-All Q R [] [] f s h = tt
ShowsAll-All Q R [] (t ∷ ts) f s h = elim s [ ]
ShowsAll-All Q R (row ∷ rows) [] f s h = elim s [ ]
ShowsAll-All Q R (row ∷ rows) (t ∷ ts) f s h = (f row t s.0 h.0, ShowsAll-All Q R rows ts f s.1 h.1)

-- In order of currency, as a caller reads them.
abbrev pub AreListed : List Total → Type 0
AreListed [] = Unit {0}
AreListed (t ∷ ts) =
    All (λ later. text_leb t.currency.code later.currency.code ≡ true) ts × AreListed ts

ShowsAll-AreListed :
    (rows : List TotalRow) (ts : List Total) → ShowsAll rows ts → AreInOrder rows → AreListed ts
ShowsAll-AreListed [] [] s h = tt
ShowsAll-AreListed [] (t ∷ ts) s h = elim s [ ]
ShowsAll-AreListed (row ∷ rows) [] s h = elim s [ ]
ShowsAll-AreListed (row ∷ rows) (t ∷ ts) s h = (
  ShowsAll-All _ _ rows ts (λ later t' e l. rw (s.0.0, e.0) l) s.1 h.0,
  ShowsAll-AreListed rows ts s.1 h.1,
)

abbrev is_in : Text → Total → Bool
is_in c t = text_eq t.currency.code c

ShowsAll-any :
    (c : Text) (rows : List TotalRow) (ts : List Total)
    → ShowsAll rows ts
    → any (is_in c) ts ≡ any (λ row. text_eq row.currency c) rows
ShowsAll-any c [] [] s = refl
ShowsAll-any c [] (t ∷ ts) s = elim s [ ]
ShowsAll-any c (row ∷ rows) [] s = elim s [ ]
ShowsAll-any c (row ∷ rows) (t ∷ ts) s = ground (arith, s.0.0, ShowsAll-any c rows ts s.1)

-- A merchant's rows in a currency are the rows of that merchant and currency.
any-keep_merchants :
    (m c : Text) (rows : List TotalRow)
    → any (λ row. text_eq row.currency c) (keep (is_merchants m) rows) ≡ any (is_total_of m c) rows
any-keep_merchants m c [] = refl
any-keep_merchants m c (row ∷ rows) = ground (arith, any-keep_merchants m c rows)

-- What a read over the sums of a log answers: each sum of each total is the sum of the log's entries
-- of that merchant, currency and kind; the totals are in order of currency; and a currency is among
-- them exactly when the merchant has a row in it.
abbrev pub IsAnswer : List Entry → Database → Text → List Total → Type 0
IsAnswer log db m ts =
    All (λ t. (col : Column) → total_column col t ≡ sum_log log m t.currency.code col) ts
    × AreListed ts
    × ((c : Text) → any (is_in c) ts ≡ any (is_total_of m c) db.totals)

scanned-IsAnswer :
    (log : List Entry) (db : Database) (m : Text) (ts : List Total)
    → IsLedger log db
    → scan_all (by_currency (keep (is_merchants m) db.totals)) ≡ ok ts
    → IsAnswer log db m ts
scanned-IsAnswer log db m ts l h =
    let rows = by_currency (keep (is_merchants m) db.totals) in
    let s = scan_all-ShowsAll rows ts h in
    (
      ShowsAll-All
          (λ row. (col : Column) → get_column col row ≡ sum_of m row.currency col db.totals) _ rows
          ts
          (λ row t e q col.
            e.1 col ∙ q col ∙ l.summed m row.currency col ∙ ap (λ c. sum_log log m c col) (sym e.0))
          s (answered_rows m db.totals l.one_row),
      ShowsAll-AreListed rows ts s (by_currency-AreInOrder _),
      λ c.
          ShowsAll-any c rows ts s
          ∙ any-by_currency _ (keep (is_merchants m) db.totals)
          ∙ any-keep_merchants m c db.totals,
    )

-- What became of a read: the tables are as they were, and the answer is over the log, or the query
-- failed, the merchant id is no key, or a row of the merchant cannot be read.
abbrev pub Answered :
    List Entry → Option Error → Text → Database → Result (List Total) × Database → Type 0
Answered log fault merchant_id db (ok ts, db') = (db' ≡ db) × IsAnswer log db merchant_id ts
Answered log fault merchant_id db (err e, db') =
    (db' ≡ db)
    × ((is_ok (parse_merchant_key merchant_id) ≡ false)
        ⊎ (fault ≢ none)
        ⊎ (all (λ row. is_ok (scan_total row)) (keep (is_merchants merchant_id) db.totals) ≡ false))

all-insert_total :
    (p : TotalRow → Bool) (row : TotalRow) (rows : List TotalRow)
    → all p (insert_total row rows) ≡ (p row && all p rows)
unfolding insert_total
all-insert_total p row [] = refl
all-insert_total p row (other ∷ rows) = ground (arith, all-insert_total p row rows)

all-by_currency :
    (p : TotalRow → Bool) (rows : List TotalRow) → all p (by_currency rows) ≡ all p rows
unfolding by_currency
all-by_currency p [] = refl
all-by_currency p (row ∷ rows) =
    all-insert_total p row (by_currency rows) ∙ ap (λ b. p row && b) (all-by_currency p rows)

-- A step of the scan that failed, or one behind it.
failed_step :
    (r : Result Total) (rest : Result (List Total)) (e : Error)
    → (r >>= λ t. rest >>= λ ts. ok (t ∷ ts)) ≡ err e
    → (is_ok r ≡ false) ⊎ ((e' : Error) × (rest ≡ err e'))
failed_step (err e') rest e h = inl refl
failed_step (ok t) (err e') e h = inr (e', refl)
failed_step (ok t) (ok ts) e h = ground arith

scan_all-err :
    (rows : List TotalRow) (e : Error)
    → scan_all rows ≡ err e
    → all (λ row. is_ok (scan_total row)) rows ≡ false
unfolding scan_all
scan_all-err [] e h = ground arith
scan_all-err (row ∷ rows) e h = elim (failed_step (scan_total row) (scan_all rows) e h) [
  | inl broken ↦ rw broken refl
  | inr (e', later) ↦ ground (arith, scan_all-err rows e' later)
]

parse_merchant_key-same :
    (m : Text) (key : MerchantKey) → parse_merchant_key m ≡ ok key → key.value ≡ m
unfolding parse_merchant_key
parse_merchant_key-same m key h = ground arith

scanned-Answered :
    (log : List Entry) (m : Text) (db : Database)
    → IsLedger log db
    → (scanned : Result (List Total))
    → scan_all (by_currency (keep (is_merchants m) db.totals)) ≡ scanned
    → Answered log none m db (wrap (merchant_storage ∷ []) scanned, db)
scanned-Answered log m db l (err e) h = (
  refl,
  inr (inr (sym (all-by_currency _ (keep (is_merchants m) db.totals)) ∙ scan_all-err _ e h)),
)
scanned-Answered log m db l (ok ts) h = (refl, scanned-IsAnswer log db m ts l h)

totals_for-Answered :
    (log : List Entry) (fault : Option Error) (m : Text) (db : Database)
    → IsLedger log db
    → (parsed : Result MerchantKey) → parse_merchant_key m ≡ parsed
    → Answered log fault m db (totals_for fault parsed db)
unfolding totals_for totals_of
totals_for-Answered log fault m db l (err e) h = (refl, inl (ground arith))
totals_for-Answered log (some e) m db l (ok key) h = (refl, inr (inl (ground arith)))
totals_for-Answered log none m db l (ok key) h =
    rw (parse_merchant_key-same m key h)
      (scanned-Answered log m db l (scan_all (by_currency (keep (is_merchants m) db.totals))) refl)

-- If the tables stand for a log of counted events, then a read of a merchant's totals leaves them as
-- they are. It is an error only if the query failed, the merchant id is no key, or a row of the
-- merchant cannot be read. Otherwise each total's three sums are the sums over the log's entries of
-- that merchant and currency, the totals are in order of currency, and a currency is among them
-- exactly when the merchant has a row in it.
pub execute_read-Answered :
    (log : List Entry) (fault : Option Error) (merchant_id : Text) (db : Database)
    → IsLedger log db
    → Answered log fault merchant_id db (execute_read fault merchant_id db)
unfolding execute_read
execute_read-Answered log fault merchant_id db l =
    totals_for-Answered log fault merchant_id db l (parse_merchant_key merchant_id) refl
