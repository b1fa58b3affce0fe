-- ===== src/UseCases/Agreement.antt =====
-- What the payments domain authorises and what the consumer can count are the same.
use kafka_lab.Base.{arith, false, length, true, ◌≡◌, ◌≤◌}
use kafka_lab.Base.Text.{Text, is_empty}
use kafka_lab.Base.Time.{Time}
use kafka_lab.Base.Errors.{is_ok}
use kafka_lab.Merchant.{is_storable_text, kind_authorized, kind_refunded, max_identifier_length}
use kafka_lab.Payment.Identity.{PaymentId}
use kafka_lab.UseCases.Authorize.{authorize_command}
use kafka_lab.UseCases.Movement.{PaymentEvent, movement_of}

-- An event whose id the relay could have stamped, of one of the three kinds.
pub record IsStamped (e : PaymentEvent) : Type 0 where
  pub kind_low : kind_authorized ≤ e.kind
  pub kind_high : e.kind ≤ kind_refunded
  pub id_some : is_empty e.event_id ≡ false
  pub id_short : length e.event_id ≤ max_identifier_length
  pub id_text : is_storable_text e.event_id ≡ true

-- For an event of a known kind with a usable id, and a command with the same merchant, amount and
-- currency: the consumer's domain accepts the event exactly when the payments domain accepts the
-- authorisation. So whatever was authorised can be counted, and nothing else can.
pub movement_of-authorize_command :
    (e : PaymentEvent) (key : Text) (at : Time) (id : PaymentId)
    → IsStamped e
    → is_ok (movement_of e)
      ≡ is_ok (
          authorize_command
            (record {
              merchant_id = e.merchant_id;
              amount_minor = e.amount_minor;
              currency = e.currency;
              idempotency_key = key;
            })
            at
            id)
unfolding movement_of authorize_command is_storable_text
movement_of-authorize_command e key at id h = ground arith
