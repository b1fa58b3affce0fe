-- ===== src/UseCases/Change.antt =====
-- internal/application/payments/change.go: capturing and refunding a stored payment.
pub mod Absent
use kafka_lab.Base.{Option, [], none, some, ◌∷◌}
use kafka_lab.Base.Text.{Text}
use kafka_lab.Base.Time.{Time}
use kafka_lab.Base.Errors.{Error, Result, err, not_found, ok, wrap, ◌>>=◌, ◌>>◌}
use kafka_lab.Outboxwire.{Json}
use kafka_lab.Payment.Identity.{
  MerchantId, PaymentId, Uuids, id_string, parse_id, parse_merchant_id,
}
use kafka_lab.Payment.Aggregate.{Payment, capture, refund, status_string}
use kafka_lab.Database.{Action, Context, bind, pure, raise}
use kafka_lab.Database.Transaction.{Session, payment_terms, within_tx}
use kafka_lab.Database.Payments.{find_for_update, save}

pub record ChangeCommand : Type 0 where
  pub merchant_id : Text
  pub payment_id : Text

pub record ChangeResult : Type 0 where
  pub payment_id : Text
  pub status : Text

-- A move of a payment at a time: `Capture` or `Refund`.
abbrev pub Move : Type 0
Move = Payment → Time → Payment × Option Error

module _ (u : Uuids) (json : Json) where
  -- `parseChange`
  unfoldable pub parse_change : ChangeCommand → Result (PaymentId × MerchantId)
  unfolding parse_merchant_id parse_id
  parse_change cmd = do
    merchant ← parse_merchant_id cmd.merchant_id
    id ← wrap (not_found ∷ []) (parse_id u cmd.payment_id)
    ok (id, merchant)

  -- The payment after the move is saved from the status that it had before.
  unfoldable pub save_moved : Context → Payment → Payment × Option Error → Action ChangeResult
  unfolding save status_string
  save_moved ctx before (changed, some e) = raise e
  save_moved ctx before (changed, none) = bind (save u json ctx changed before.status) (λ _.
      pure (record { payment_id = id_string u changed.id; status = status_string changed.status }))

  -- What `apply` runs in its transaction.
  unfoldable pub change_in : Move → PaymentId → MerchantId → Time → Context → Action ChangeResult
  unfolding find_for_update save_moved
  change_in move id merchant at ctx =
      bind (find_for_update u json ctx id merchant) (λ found. save_moved ctx found (move found at))

  unfoldable pub apply_parsed :
      Session → Move → Time → Result (PaymentId × MerchantId) → Action ChangeResult
  unfolding change_in within_tx
  apply_parsed s move at (err e) = raise e
  apply_parsed s move at (ok (id, merchant)) =
      within_tx payment_terms s (change_in move id merchant at)

  -- `change.apply`
  unfoldable pub apply_change : Session → Move → ChangeCommand → Time → Action ChangeResult
  unfolding parse_change apply_parsed
  apply_change s move cmd at = apply_parsed s move at (parse_change cmd)

  -- `CapturePayment.Execute`
  unfoldable pub execute_capture : Session → ChangeCommand → Time → Action ChangeResult
  unfolding apply_change capture
  execute_capture s = apply_change s capture

  -- `RefundPayment.Execute`
  unfoldable pub execute_refund : Session → ChangeCommand → Time → Action ChangeResult
  unfolding apply_change refund
  execute_refund s = apply_change s refund
