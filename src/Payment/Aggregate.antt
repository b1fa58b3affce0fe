-- ===== src/Payment/Aggregate.antt =====
-- internal/domain/payment/payment.go: the payment and its operations. A method that changes
-- `*Payment` returns the changed payment beside its error.
use kafka_lab.Base.{List, Option, [], if◌then◌else◌, none, not, some, ◌++◌, ◌||◌, ◌∷◌}
use kafka_lab.Base.Text.{Text, codes, text_eq}
use kafka_lab.Base.Time.{Time, is_zero_time, to_utc, zero_time}
use kafka_lab.Base.Errors.{
  Error, Result, amount_not_positive, amount_too_large, invalid_transition, not_the_same_payment,
  ok, require, ◌>>◌,
}
use kafka_lab.Payment.Money.{Money, is_positive, is_within_authorization_limit, money_eq}
use kafka_lab.Payment.Identity.{MerchantId, PaymentId}
use kafka_lab.Payment.Events.{Event, Movement}

pub data Status : Type 0 where
  unknown authorized captured refunded : Status

pub Status-discrete : Discrete Status
Status-discrete = hlevel

-- `Status.String`
unfoldable pub status_string : Status → Text
status_string Status.authorized = codes "authorized"
status_string Status.captured = codes "captured"
status_string Status.refunded = codes "refunded"
status_string Status.unknown = codes "unknown"

pub record History : Type 0 where
  pub authorized_at : Time
  pub captured_at : Time
  pub refunded_at : Time

unfoldable pub utc_or_zero : Time → Time
utc_or_zero at = if is_zero_time at then zero_time else to_utc at

unfoldable pub new_history : Time → Time → Time → History
unfolding utc_or_zero
new_history authorized_at captured_at refunded_at = record {
  authorized_at = utc_or_zero authorized_at;
  captured_at = utc_or_zero captured_at;
  refunded_at = utc_or_zero refunded_at;
}

pub record Payment : Type 0 where
  pub id : PaymentId
  pub merchant : MerchantId
  pub amount : Money
  pub status : Status
  pub history : History
  pub events : List Event

-- `Payment.movement`
abbrev pub movement : Payment → Time → Movement
movement p at = record {
  payment_id = p.id;
  merchant = p.merchant;
  amount = p.amount;
  occurred_at = at;
}

unfoldable pub authorize : PaymentId → MerchantId → Money → Time → Result Payment
unfolding is_positive is_within_authorization_limit new_history
authorize id merchant amount at = do
  require (is_positive amount) amount_not_positive
  require (is_within_authorization_limit amount) amount_too_large
  let p : Payment = record {
    id = id;
    merchant = merchant;
    amount = amount;
    status = Status.authorized;
    history = new_history at zero_time zero_time;
    events = [];
  }
  ok (record p {
    events = p.events ++ (Event.authorized (movement p p.history.authorized_at) ∷ []);
  })

unfoldable pub reconstitute : PaymentId → MerchantId → Money → Status → History → Payment
reconstitute id merchant amount status history = record {
  id = id;
  merchant = merchant;
  amount = amount;
  status = status;
  history = history;
  events = [];
}

-- The `switch` of `Capture`, on the status.
capture_from : Status → Payment → Time → Payment × Option Error
capture_from Status.captured p at = (p, none)
capture_from Status.authorized p at =
    let h : History = record p.history { captured_at = to_utc at } in
    let moved = record p { status = Status.captured; history = h } in
    (
      record moved { events = p.events ++ (Event.captured (movement moved h.captured_at) ∷ []) },
      none,
    )
capture_from _ p at = (p, some (invalid_transition ∷ []))

unfoldable pub capture : Payment → Time → Payment × Option Error
unfolding capture_from
capture p at = capture_from p.status p at

-- The `switch` of `Refund`, on the status.
refund_from : Status → Payment → Time → Payment × Option Error
refund_from Status.refunded p at = (p, none)
refund_from Status.captured p at =
    let h : History = record p.history { refunded_at = to_utc at } in
    let moved = record p { status = Status.refunded; history = h } in
    (
      record moved { events = p.events ++ (Event.refunded (movement moved h.refunded_at) ∷ []) },
      none,
    )
refund_from _ p at = (p, some (invalid_transition ∷ []))

unfoldable pub refund : Payment → Time → Payment × Option Error
unfolding refund_from
refund p at = refund_from p.status p at

unfoldable pub replays : Payment → Payment → Option Error
unfolding money_eq
replays p earlier =
    if not (text_eq p.merchant.value earlier.merchant.value)
      || not (money_eq p.amount earlier.amount)
    then some (not_the_same_payment ∷ [])
    else none

-- The events that were pending, and the payment without them.
unfoldable pub pull_events : Payment → List Event × Payment
pull_events p = (p.events, record p { events = [] })
