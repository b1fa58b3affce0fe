-- ===== src/Merchant.antt =====
-- internal/domain/merchant/merchant.go: what the consumer counts for a merchant.
use kafka_lab.Base.{Bool, all, if◌then◌else◌, leb, length, ltb, not, ℕ, ◌&&◌, ◌==◌, ◌^◌, ◌||◌}
use kafka_lab.Base.Int.{eqb_ℤ, leb_ℤ, ltb_ℤ, pos, ℤ}
use kafka_lab.Base.Text.{Text, codes, contains_nul, is_empty, runes, valid_utf8}
use kafka_lab.Base.Errors.{
  Result, event_id_invalid, event_id_required, event_id_too_long, id_invalid, id_required,
  id_too_long, kind_unknown, movement_not_positive, movement_too_large, ok, require, total_currency,
  total_negative, ◌>>=◌, ◌>>◌,
}

abbrev pub max_identifier_length : ℕ
max_identifier_length = 64

abbrev pub max_authorized_minor : ℤ
max_authorized_minor = pos (2 ^ 50)

abbrev pub currency_code_length : ℕ
currency_code_length = 3

pub record MerchantKey : Type 0 where
  pub value : Text

-- `isStorableText`
unfoldable pub is_storable_text : Text → Bool
is_storable_text value = valid_utf8 value && not (contains_nul value)

-- `ParseID`
unfoldable pub parse_merchant_key : Text → Result MerchantKey
unfolding is_storable_text
parse_merchant_key value = do
  require (not (is_empty value)) id_required
  require (leb (length value) max_identifier_length) id_too_long
  require (is_storable_text value) id_invalid
  ok (record { value = value })

pub record Currency : Type 0 where
  pub code : Text

abbrev pub is_upper : ℕ → Bool
is_upper letter = not (ltb letter b'A' || ltb b'Z' letter)

unfoldable pub parse_currency : Text → Result Currency
parse_currency code = do
  require (length code == currency_code_length) total_currency
  require (all is_upper (runes 0 code)) total_currency
  ok (record { code = code })

pub record Amount : Type 0 where
  pub minor : ℤ
  pub currency : Currency

unfoldable pub check_amount : ℤ → Result (Unit {0})
check_amount minor = do
  require (not (leb_ℤ minor (pos 0))) movement_not_positive
  require (not (ltb_ℤ max_authorized_minor minor)) movement_too_large

unfoldable pub new_amount : ℤ → Text → Result Amount
unfolding parse_currency check_amount
new_amount minor currency = do
  code ← parse_currency currency
  check_amount minor
  ok (record { minor = minor; currency = code })

-- A `uint8` with four names.
abbrev pub Kind : Type 0
Kind = ℕ

abbrev pub kind_of_nothing : Kind
kind_of_nothing = 0

abbrev pub kind_authorized : Kind
kind_authorized = 1

abbrev pub kind_captured : Kind
kind_captured = 2

abbrev pub kind_refunded : Kind
kind_refunded = 3

-- `Kind.String`
unfoldable pub kind_string : Kind → Text
kind_string k =
    if k == kind_authorized
    then codes "authorized"
    else if k == kind_captured
    then codes "captured"
    else if k == kind_refunded
    then codes "refunded"
    else codes "unknown"

-- `Movement`, on the consumer's side.
pub record Entry : Type 0 where
  pub kind : Kind
  pub event_id : Text
  pub merchant : MerchantKey
  pub amount : Amount

unfoldable pub check_event_id : Text → Result (Unit {0})
unfolding is_storable_text
check_event_id event_id = do
  require (not (is_empty event_id)) event_id_required
  require (leb (length event_id) max_identifier_length) event_id_too_long
  require (is_storable_text event_id) event_id_invalid

-- `amount == (Amount{})`
abbrev pub is_zero_amount : Amount → Bool
is_zero_amount a = eqb_ℤ a.minor (pos 0) && is_empty a.currency.code

-- `NewMovement`
unfoldable pub new_entry : Kind → Text → Text → Amount → Result Entry
unfolding check_event_id parse_merchant_key
new_entry kind event_id merchant_id amount = do
  require (not (kind == kind_of_nothing || ltb kind_refunded kind)) kind_unknown
  check_event_id event_id
  merchant ← parse_merchant_key merchant_id
  require (not (is_zero_amount amount)) movement_not_positive
  ok (record { kind = kind; event_id = event_id; merchant = merchant; amount = amount })

pub record Total : Type 0 where
  pub currency : Currency
  pub authorized : ℤ
  pub captured : ℤ
  pub refunded : ℤ

unfoldable pub new_total : Text → ℤ → ℤ → ℤ → Result Total
unfolding parse_currency
new_total currency authorized captured refunded = do
  code ← parse_currency currency
  require (not (ltb_ℤ authorized (pos 0) || ltb_ℤ captured (pos 0) || ltb_ℤ refunded (pos 0)))
      total_negative
  ok (record { currency = code; authorized = authorized; captured = captured; refunded = refunded })
