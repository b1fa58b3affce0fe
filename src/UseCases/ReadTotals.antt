-- ===== src/UseCases/ReadTotals.antt =====
-- internal/application/merchants/read_totals.go, over the query of
-- internal/infrastructure/postgres/totals.go: what a merchant's sums stand at.
pub mod Projection
pub mod Answer
use kafka_lab.Base.{Bool, List, Option, [], if◌then◌else◌, keep, ◌∷◌}
use kafka_lab.Base.Text.{Text, text_eq, text_leb}
use kafka_lab.Base.Errors.{Error, Result, err, join, merchant_storage, ok, wrap, ◌>>=◌, ◌>>◌}
use kafka_lab.Merchant.{MerchantKey, Total, new_total, parse_merchant_key}
use kafka_lab.Database.{Action, TotalRow, exec, lift, raise}

-- `ORDER BY currency`; the currency is in the primary key, so no two rows of a merchant are level.
unfoldable pub insert_total : TotalRow → List TotalRow → List TotalRow
unfolding text_leb
insert_total row [] = row ∷ []
insert_total row (other ∷ rows) =
    let rest = insert_total row rows in
    if text_leb row.currency other.currency then row ∷ other ∷ rows else other ∷ rest

unfoldable pub by_currency : List TotalRow → List TotalRow
unfolding insert_total
by_currency [] = []
by_currency (row ∷ rows) = insert_total row (by_currency rows)

-- `scanTotal`
unfoldable pub scan_total : TotalRow → Result Total
unfolding new_total
scan_total row = new_total row.currency row.authorized_minor row.captured_minor row.refunded_minor

-- `pgx.AppendRows`: the first row that cannot be read ends it.
unfoldable pub scan_all : List TotalRow → Result (List Total)
unfolding scan_total
scan_all [] = ok []
scan_all (row ∷ rows) = do total ← scan_total row; totals ← scan_all rows; ok (total ∷ totals)

abbrev pub is_merchants : Text → TotalRow → Bool
is_merchants merchant row = text_eq row.merchant_id merchant

-- `TotalsStore.Totals`, with the failure of its query.
unfoldable pub totals_of : Option Error → MerchantKey → Action (List Total)
unfolding by_currency scan_all
totals_of fault merchant db =
    exec fault (λ e. join (merchant_storage ∷ []) e)
      (lift (
        wrap (merchant_storage ∷ [])
          (scan_all (by_currency (keep (is_merchants merchant.value) db.totals)))))
      db

unfoldable pub totals_for : Option Error → Result MerchantKey → Action (List Total)
unfolding totals_of
totals_for fault (err e) = raise e
totals_for fault (ok merchant) = totals_of fault merchant

-- `ReadTotals.read`
unfoldable pub execute_read : Option Error → Text → Action (List Total)
unfolding parse_merchant_key totals_for
execute_read fault merchant_id = totals_for fault (parse_merchant_key merchant_id)
