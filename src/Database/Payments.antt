-- ===== src/Database/Payments.antt =====
-- internal/infrastructure/postgres/payments.go and statuses.go: payments as rows, and back.
use kafka_lab.Base.{
  Bool, List, Option, [], any, false, find, if◌then◌else◌, none, not, some, true, ℕ, ◌&&◌, ◌++◌,
  ◌+◌, ◌==◌, ◌∷◌,
}
use kafka_lab.Base.Text.{Text, codes, text_eq}
use kafka_lab.Base.Time.{Time, is_zero_time, zero_time}
use kafka_lab.Base.Errors.{
  Error, Result, concurrent_modification, corrupt, err, is, join, no_rows, not_found, ok,
  outside_transaction, payment_storage, pg_error, status_unknown, wrap, ◌>>=◌,
}
use kafka_lab.Outboxwire.{Json}
use kafka_lab.Payment.Money.{parse_money}
use kafka_lab.Payment.Identity.{MerchantId, PaymentId, Uuids, id_string, parse_id}
use kafka_lab.Payment.Aggregate.{Payment, Status, new_history, reconstitute}
use kafka_lab.Database.{
  Action, Context, PaymentRow, bind, exec, insert_payment, lift, pure, raise, select_payment_by_key,
  select_payment_for_update, update_payment_status,
}
use kafka_lab.Database.Outbox.{append_events}

-- `storedStatus`, over the table of `storedStatuses`.
unfoldable pub stored_status : Status → Result Text
stored_status Status.authorized = ok (codes "authorized")
stored_status Status.captured = ok (codes "captured")
stored_status Status.refunded = ok (codes "refunded")
stored_status Status.unknown = err (status_unknown ∷ [])

unfoldable pub parse_stored_status : Text → Result Status
parse_stored_status spelling =
    if text_eq (codes "authorized") spelling
    then ok Status.authorized
    else if text_eq (codes "captured") spelling
    then ok Status.captured
    else if text_eq (codes "refunded") spelling
    then ok Status.refunded
    else err (status_unknown ∷ [])

-- `nullableTime` and `timeOrZero`
unfoldable pub nullable_time : Time → Option Time
nullable_time at = if is_zero_time at then none else some at

unfoldable pub time_or_zero : Option Time → Time
time_or_zero none = zero_time
time_or_zero (some at) = at

-- The key of the table on which an insert is a conflict.
abbrev pub under_key : Text → Text → PaymentRow → Bool
under_key merchant key row = text_eq row.merchant_id merchant && text_eq row.idempotency_key key

abbrev pub with_id : Text → Text → PaymentRow → Bool
with_id id merchant row = text_eq row.id id && text_eq row.merchant_id merchant

-- What the answer to an insert of a primary key that is taken holds.
abbrev pub unique_violation : Error
unique_violation = pg_error (codes "ERROR") (codes "23505") ∷ []

module _ (u : Uuids) (json : Json) where
  unfoldable pub to_domain : PaymentRow → MerchantId → Result Payment
  unfolding parse_id parse_money parse_stored_status reconstitute new_history time_or_zero
  to_domain row merchant = do
    id ← parse_id u row.id
    amount ← parse_money row.amount_minor row.currency
    status ← parse_stored_status row.status
    ok (
        reconstitute id merchant amount status (
          new_history row.authorized_at (time_or_zero row.captured_at)
            (time_or_zero row.refunded_at)))

  unfoldable pub rebuilt : PaymentRow → MerchantId → Result Payment
  unfolding to_domain
  rebuilt row merchant = wrap (corrupt ∷ []) (to_domain row merchant)

  -- A query for one row, which is rebuilt; without a row it is an error of its own.
  unfoldable pub fetch_row : Error → Option PaymentRow → MerchantId → Result Payment
  unfolding rebuilt
  fetch_row missing none merchant = err missing
  fetch_row missing (some row) merchant = rebuilt row merchant

  -- `storedUnder`
  unfoldable pub stored_under : Context → MerchantId → Text → Action Payment
  unfolding fetch_row
  stored_under ctx merchant key db =
      exec (ctx.fault select_payment_by_key) (λ e. join (payment_storage ∷ []) e)
        (lift (
          fetch_row (payment_storage ∷ no_rows ∷ [])
            (find (under_key merchant.value key) db.payments) merchant))
        db

  abbrev pub row_of : Payment → Text → Text → PaymentRow
  row_of p status key = record {
    id = id_string u p.id;
    merchant_id = p.merchant.value;
    amount_minor = p.amount.minor;
    currency = p.amount.currency.code;
    status = status;
    idempotency_key = key;
    authorized_at = p.history.authorized_at;
    captured_at = none;
    refunded_at = none;
  }

  -- INSERT INTO payments … ON CONFLICT (merchant_id, idempotency_key) DO NOTHING, and whether a row
  -- was written.
  unfoldable pub insert_row_of : Payment → Text → Text → Action Bool
  insert_row_of p status key db =
      if any (under_key p.merchant.value key) db.payments
      then (ok false, db)
      else if any (λ row. text_eq row.id (id_string u p.id)) db.payments
      then (err (join (payment_storage ∷ []) unique_violation), db)
      else (ok true, record db { payments = db.payments ++ (row_of p status key ∷ []) })

  -- `PaymentStore.CreateOrGet`
  unfoldable pub create_or_get : Context → Payment → Text → Action (Payment × Bool)
  unfolding stored_status insert_row_of append_events stored_under
  create_or_get ctx p key =
      if not ctx.inside
      then raise (outside_transaction ∷ [])
      else bind (lift (wrap (corrupt ∷ []) (stored_status p.status))) (λ status.
        bind
          (exec (ctx.fault insert_payment) (λ e. join (payment_storage ∷ []) e)
            (insert_row_of p status key))
          (λ inserted.
            if inserted
            then bind (append_events u json ctx p) (λ p'. pure (p', true))
            else bind (stored_under ctx p.merchant key) (λ stored. pure (stored, false))))

  -- `PaymentStore.FindForMerchantForUpdate`
  unfoldable pub find_for_update : Context → PaymentId → MerchantId → Action Payment
  unfolding fetch_row
  find_for_update ctx id merchant db =
      if not ctx.inside
      then raise (outside_transaction ∷ []) db
      else exec (ctx.fault select_payment_for_update)
          (λ e. if is e no_rows then not_found ∷ [] else join (payment_storage ∷ []) e)
          (lift (
            fetch_row (not_found ∷ []) (find (with_id (id_string u id) merchant.value) db.payments)
              merchant))
          db

  -- UPDATE payments SET status = $3, captured_at = $4, refunded_at = $5 WHERE id = $1 AND
  -- merchant_id = $2 AND status = $6: the rows, and how many were updated.
  unfoldable pub update_rows :
      Text → Text → Text → Option Time → Option Time → Text → List PaymentRow → List PaymentRow × ℕ
  update_rows id merchant status captured_time refunded_time previous [] = ([], 0)
  update_rows id merchant status captured_time refunded_time previous (row ∷ rows) =
      let (rest, n) = update_rows id merchant status captured_time refunded_time previous rows in
      if with_id id merchant row && text_eq row.status previous
      then (
        record row { status = status; captured_at = captured_time; refunded_at = refunded_time }
            ∷ rest,
        n + 1,
      )
      else (row ∷ rest, n)

  unfoldable pub update_status : Payment → Text → Text → Action (Unit {0})
  unfolding update_rows nullable_time
  update_status p status previous db =
      let (rows, n) =
        update_rows (id_string u p.id) p.merchant.value status (nullable_time p.history.captured_at)
          (nullable_time p.history.refunded_at) previous db.payments in
      if n == 0
      then (err (concurrent_modification ∷ []), db)
      else (ok tt, record db { payments = rows })

  -- `PaymentStore.Save`
  unfoldable pub save : Context → Payment → Status → Action Payment
  unfolding stored_status update_status append_events
  save ctx changed from =
      if not ctx.inside
      then raise (outside_transaction ∷ [])
      else bind (lift (wrap (corrupt ∷ []) (stored_status changed.status))) (λ status.
        bind (lift (wrap (corrupt ∷ []) (stored_status from))) (λ previous.
          bind
            (exec (ctx.fault update_payment_status) (λ e. join (payment_storage ∷ []) e)
              (update_status changed status previous))
            (λ _. append_events u json ctx changed)))
