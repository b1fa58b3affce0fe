-- ===== src/Payment/Money.antt =====
-- internal/domain/payment/money.go: currencies and amounts in minor units.
use kafka_lab.Base.{Bool, all, length, ltb, not, ℕ, ◌&&◌, ◌==◌, ◌^◌, ◌||◌}
use kafka_lab.Base.Int.{eqb_ℤ, leb_ℤ, ltb_ℤ, pos, ℤ}
use kafka_lab.Base.Text.{Text, is_empty, runes, text_eq}
use kafka_lab.Base.Errors.{Result, amount_negative, currency_format, ok, require, ◌>>=◌, ◌>>◌}

abbrev pub currency_code_length : ℕ
currency_code_length = 3

abbrev pub max_authorized_minor : ℤ
max_authorized_minor = pos (2 ^ 50)

pub record Currency : Type 0 where
  pub code : Text

-- The test of the loop over the letters of a code.
abbrev pub is_upper : ℕ → Bool
is_upper letter = not (ltb letter b'A' || ltb b'Z' letter)

unfoldable pub parse_currency : Text → Result Currency
parse_currency code = do
  require (length code == currency_code_length) currency_format
  require (all is_upper (runes 0 code)) currency_format
  ok (record { code = code })

pub record Money : Type 0 where
  pub minor : ℤ
  pub currency : Currency

-- `currency == (Currency{})`
abbrev pub is_zero_currency : Currency → Bool
is_zero_currency c = is_empty c.code

unfoldable pub new_money : ℤ → Currency → Result Money
new_money minor currency = do
  require (not (ltb_ℤ minor (pos 0))) amount_negative
  require (not (is_zero_currency currency)) currency_format
  ok (record { minor = minor; currency = currency })

unfoldable pub parse_money : ℤ → Text → Result Money
unfolding parse_currency new_money
parse_money minor currency = do code ← parse_currency currency; new_money minor code

unfoldable pub is_positive : Money → Bool
is_positive m = ltb_ℤ (pos 0) m.minor

unfoldable pub is_within_authorization_limit : Money → Bool
is_within_authorization_limit m = leb_ℤ m.minor max_authorized_minor

-- Go's `==` on two amounts.
unfoldable pub money_eq : Money → Money → Bool
money_eq a b = eqb_ℤ a.minor b.minor && text_eq a.currency.code b.currency.code
