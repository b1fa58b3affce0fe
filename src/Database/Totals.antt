-- ===== src/Database/Totals.antt =====
-- internal/infrastructure/postgres/totals.go: the sums per merchant and currency.
use kafka_lab.Base.{
  Bool, List, Option, [], false, if◌then◌else◌, none, not, some, true, ◌&&◌, ◌-◌, ◌==◌, ◌^◌, ◌∷◌,
  ◌≡◌,
}
use kafka_lab.Base.Int.{ltb_ℤ, pos, ℤ, ◌+ℤ◌}
use kafka_lab.Base.Text.{Text, codes, text_eq}
use kafka_lab.Base.Time.{Time, to_utc}
use kafka_lab.Base.Errors.{
  Error, as_pg_error, contended, err, join, merchant_storage, no_column, ok, outside_transaction,
  pg_error, unprocessable,
}
use kafka_lab.Merchant.{Entry, Kind, kind_authorized, kind_captured, kind_refunded}
use kafka_lab.Database.{
  Action, Context, Database, TotalRow, add_to_total, bound_lock_wait, exec, raise,
}
use kafka_lab.Database.Transaction.{refused_by_data}

pub data Column : Type 0 where
  authorized_column captured_column refunded_column : Column

-- `sumColumns`, looked up.
unfoldable pub sum_columns : Kind → Option Column
sum_columns k =
    if k == kind_authorized
    then some authorized_column
    else if k == kind_captured
    then some captured_column
    else if k == kind_refunded
    then some refunded_column
    else none

abbrev pub max_bigint : ℤ
max_bigint = pos (2 ^ 63 - 1)

abbrev pub get_column : Column → TotalRow → ℤ
get_column authorized_column row = row.authorized_minor
get_column captured_column row = row.captured_minor
get_column refunded_column row = row.refunded_minor

abbrev pub set_column : Column → ℤ → TotalRow → TotalRow
set_column authorized_column v row = record row { authorized_minor = v }
set_column captured_column v row = record row { captured_minor = v }
set_column refunded_column v row = record row { refunded_minor = v }

abbrev pub is_total_of : Text → Text → TotalRow → Bool
is_total_of merchant currency row =
    text_eq row.merchant_id merchant && text_eq row.currency currency

-- What the answer to a sum past the range of `bigint` holds.
abbrev pub out_of_range : Error
out_of_range = pg_error (codes "ERROR") (codes "22003") ∷ []

abbrev pub fresh_total : Text → Text → Time → TotalRow
fresh_total merchant currency at = record {
  merchant_id = merchant;
  currency = currency;
  authorized_minor = pos 0;
  captured_minor = pos 0;
  refunded_minor = pos 0;
  updated_at = at;
}

abbrev pub raised : Column → ℤ → Time → TotalRow → TotalRow
raised col minor at row = record (set_column col (get_column col row +ℤ minor) row) {
  updated_at = at;
}

-- The rows after INSERT INTO merchant_currency_totals … ON CONFLICT DO UPDATE SET sum = sum + $3.
unfoldable pub upsert_total : Text → Text → Column → ℤ → Time → List TotalRow → List TotalRow
upsert_total merchant currency col minor at [] =
    raised col minor at (fresh_total merchant currency at) ∷ []
upsert_total merchant currency col minor at (row ∷ rows) =
    if is_total_of merchant currency row
    then raised col minor at row ∷ rows
    else row ∷ upsert_total merchant currency col minor at rows

-- What a merchant's sum in a currency and column stands at; without a row it is zero.
unfoldable pub sum_of : Text → Text → Column → List TotalRow → ℤ
sum_of merchant currency col [] = pos 0
sum_of merchant currency col (row ∷ rows) =
    if is_total_of merchant currency row
    then get_column col row
    else sum_of merchant currency col rows

unfoldable pub translate_add_failure : Error → Error
unfolding refused_by_data
translate_add_failure e =
    if elim (as_pg_error e) [ none ↦ false | some (_, code) ↦ text_eq code (codes "55P03") ]
    then join (contended ∷ []) e
    else if refused_by_data e
    then join (unprocessable ∷ []) e
    else join (merchant_storage ∷ []) e

-- The upsert, which the server refuses where the new sum is no `bigint`.
unfoldable pub add_row : Text → Text → Column → ℤ → Time → Action (Unit {0})
unfolding translate_add_failure
add_row merchant currency col minor at db =
    if ltb_ℤ max_bigint (sum_of merchant currency col db.totals +ℤ minor)
    then (err (translate_add_failure out_of_range), db)
    else (ok tt, record db { totals = upsert_total merchant currency col minor at db.totals })

pub add_row-over :
    (merchant currency : Text) (col : Column) (minor : ℤ) (at : Time) (db : Database)
    → ltb_ℤ max_bigint (sum_of merchant currency col db.totals +ℤ minor) ≡ true
    → add_row merchant currency col minor at db ≡ (err (translate_add_failure out_of_range), db)
unfolding add_row
add_row-over merchant currency col minor at db h = rw h

pub add_row-fits :
    (merchant currency : Text) (col : Column) (minor : ℤ) (at : Time) (db : Database)
    → ltb_ℤ max_bigint (sum_of merchant currency col db.totals +ℤ minor) ≡ false
    → add_row merchant currency col minor at db
      ≡ (ok tt, record db { totals = upsert_total merchant currency col minor at db.totals })
unfolding add_row
add_row-fits merchant currency col minor at db h = rw h

-- `TotalsStore.Add` in a column that is known.
unfoldable pub add_in : Context → Column → Entry → Time → Action (Unit {0})
unfolding add_row
add_in ctx col entry at =
    exec (ctx.fault bound_lock_wait) (λ e. join (merchant_storage ∷ []) e)
      (exec (ctx.fault add_to_total) translate_add_failure (
        add_row entry.merchant.value entry.amount.currency.code col entry.amount.minor (to_utc at)))

-- `TotalsStore.Add` once the column of the kind was looked up.
unfoldable pub add_to : Context → Entry → Time → Option Column → Action (Unit {0})
unfolding add_in
add_to ctx entry at none = raise (unprocessable ∷ no_column ∷ [])
add_to ctx entry at (some col) = add_in ctx col entry at

-- `TotalsStore.Add`
unfoldable pub add : Context → Entry → Time → Action (Unit {0})
unfolding add_to sum_columns
add ctx entry at =
    if not ctx.inside
    then raise (outside_transaction ∷ [])
    else add_to ctx entry at (sum_columns entry.kind)
