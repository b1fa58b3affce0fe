-- ===== src/Payment/Format.antt =====
-- What `ParseCurrency` accepts, over bytes and not over the runes that its loop walks.
use kafka_lab.Base.{
  All, Bool-cases, [], all, arith, inl, inr, length, ltb, refl, true, ℕ, ◌↔◌, ◌∷◌, ◌≡◌, ◌≤◌,
}
use kafka_lab.Base.Text.{Text, decode_rune_ascii, decode_rune_ge, runes}
use kafka_lab.Base.Errors.{ok}
use kafka_lab.Payment.Money.{Currency, is_upper, parse_currency}

abbrev pub IsUpperByte : ℕ → Type 0
IsUpperByte b = (b'A' ≤ b) × (b ≤ b'Z')

-- The loop passes exactly if all bytes are capital letters.
upper_runes_sound : (s : Text) → all is_upper (runes 0 s) ≡ true → All IsUpperByte s
unfolding runes
upper_runes_sound [] h = tt
upper_runes_sound (a ∷ s) h = elim (Bool-cases (ltb a 0x80)) [
  | inl low ↦
      let h' = rw (decode_rune_ascii a s (ground arith)) at h in
      (ground arith, upper_runes_sound s (ground arith))
  | inr high ↦ absurd (ground (arith, decode_rune_ge a s (ground arith)))
]

upper_runes_complete : (s : Text) → All IsUpperByte s → all is_upper (runes 0 s) ≡ true
unfolding runes
upper_runes_complete [] h = refl
upper_runes_complete (a ∷ s) h =
    rw (decode_rune_ascii a s (omega arith)) (ground (arith, upper_runes_complete s h.1))

-- `ParseCurrency` accepts exactly the texts of three bytes that are all between `A` and `Z`, and
-- keeps them as they are; everything else is a format error.
pub parse_currency_iff :
    (s : Text) (c : Currency)
    → (parse_currency s ≡ ok c) ↔ ((c.code ≡ s) × (length s ≡ 3) × All IsUpperByte s)
unfolding parse_currency
parse_currency_iff s c = (
  λ h. (ground arith, ground arith, upper_runes_sound s (ground arith)),
  λ h. ground (arith, upper_runes_complete s h.2),
)
