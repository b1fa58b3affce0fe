-- ===== src/Payment/Identity.antt =====
-- internal/domain/payment/payment.go: payment ids and merchant ids.
use kafka_lab.Base.{Bool, Option, [], leb, length, none, not, some, ℕ, ◌&&◌, ◌∷◌, ◌≡◌}
use kafka_lab.Base.Text.{Text, contains_nul, is_empty, valid_utf8}
use kafka_lab.Base.Errors.{
  Result, err, id_format, merchant_invalid, merchant_required, merchant_too_long, ok, require, ◌>>◌,
}

-- What the program uses of github.com/google/uuid: parsing and printing of a 128-bit value.
pub record Uuids : Type 0 where
  pub parse : Text → Option ℕ
  pub show : ℕ → Text
  pub parse-show : (u : ℕ) → parse (show u) ≡ some u

abbrev pub merchant_id_max_length : ℕ
merchant_id_max_length = 64

pub record PaymentId : Type 0 where
  pub value : ℕ

pub record MerchantId : Type 0 where
  pub value : Text

-- `isStorableText`
unfoldable pub is_storable_text : Text → Bool
is_storable_text value = valid_utf8 value && not (contains_nul value)

unfoldable pub parse_merchant_id : Text → Result MerchantId
unfolding is_storable_text
parse_merchant_id value = do
  require (not (is_empty value)) merchant_required
  require (leb (length value) merchant_id_max_length) merchant_too_long
  require (is_storable_text value) merchant_invalid
  ok (record { value = value })

module _ (u : Uuids) where
  unfoldable pub parse_id : Text → Result PaymentId
  parse_id value = elim (u.parse value) [
    | none ↦ err (id_format ∷ [])
    | some parsed ↦ ok (record { value = parsed })
  ]

  -- `ID.String`
  abbrev pub id_string : PaymentId → Text
  id_string id = u.show id.value
