-- ===== src/Base/Text.antt =====
-- Go strings are byte strings. Equality and prefixes, `unicode/utf8.ValidString`, the runes that
-- `range` yields, and the NUL test of `strings.ContainsRune`.
use Prim.Native.Char.{code}
use Prim.Native.String.{String}
use Prim.Native.Nat.{ℕ, zero, suc, ◌+◌, ◌-◌, ◌*◌, ◌≤◌, ◌<◌}
use mathlib.Core.Path.{◌≡◌, refl}
use mathlib.Core.Logic.{◌↔◌, inl, inr}
use mathlib.Core.Bool.{Bool, true, false, ◌&&◌, ◌||◌}
use mathlib.Core.Option.{Option, none, some}
use mathlib.Core.List.{List, [], ◌∷◌}
use native.Mathlib.Omega.{arith}
use kafka_lab.Base.Tests.{==_iff, Bool-cases, if◌then◌else◌, leb, ltb, ◌==◌}
use kafka_lab.Base.Lists.{any}

abbrev pub Text : Type 0
Text = List ℕ

-- The bytes of an ASCII literal.
abbrev pub codes : String → Text
codes String.[] = []
codes (String.◌∷◌ c s) = code c ∷ codes s

unfoldable pub text_eq : Text → Text → Bool
text_eq [] [] = true
text_eq (a ∷ s) (b ∷ t) = a == b && text_eq s t
text_eq _ _ = false

-- `strings.HasPrefix s p`
unfoldable pub has_prefix : Text → Text → Bool
has_prefix s [] = true
has_prefix [] (b ∷ p) = false
has_prefix (a ∷ s) (b ∷ p) = a == b && has_prefix s p

-- `s == ""`
abbrev pub is_empty : Text → Bool
is_empty [] = true
is_empty (_ ∷ _) = false

-- What the next byte of a UTF-8 sequence may be: a first byte, or a continuation byte between two
-- bounds with a number of plain continuation bytes to follow.
pub data Expect : Type 0 where
  first : Expect
  cont : ℕ → ℕ → ℕ → Expect

abbrev after_cont : ℕ → Expect
after_cont zero = first
after_cont (suc k) = cont 0x80 0xBF k

abbrev in_range : ℕ → ℕ → ℕ → Bool
in_range lo hi b = leb lo b && leb b hi

-- The table of first bytes of `unicode/utf8`.
abbrev after_first : ℕ → Option Expect
after_first b =
    if ltb b 0x80
    then some first
    else if in_range 0xC2 0xDF b
    then some (cont 0x80 0xBF 0)
    else if b == 0xE0
    then some (cont 0xA0 0xBF 1)
    else if b == 0xED
    then some (cont 0x80 0x9F 1)
    else if in_range 0xE1 0xEF b
    then some (cont 0x80 0xBF 1)
    else if b == 0xF0
    then some (cont 0x90 0xBF 2)
    else if b == 0xF4
    then some (cont 0x80 0x8F 2)
    else if in_range 0xF1 0xF3 b
    then some (cont 0x80 0xBF 2)
    else none

abbrev utf8_step : Expect → ℕ → Option Expect
utf8_step first b = after_first b
utf8_step (cont lo hi k) b = if in_range lo hi b then some (after_cont k) else none

unfoldable pub valid_from : Expect → Text → Bool
valid_from first [] = true
valid_from (cont _ _ _) [] = false
valid_from e (b ∷ s) = elim (utf8_step e b) [ none ↦ false | some e' ↦ valid_from e' s ]

-- `utf8.ValidString`
unfoldable pub valid_utf8 : Text → Bool
unfolding valid_from
valid_utf8 s = valid_from first s

-- `strings.ContainsRune s 0`: NUL is one byte, and no other rune's encoding holds it.
abbrev pub contains_nul : Text → Bool
contains_nul s = any (λ b. b == 0) s

-- The continuation bytes of a rune; U+FFFD and width 1 where one is missing or out of range.
unfoldable pub decode_cont : ℕ → ℕ → ℕ → ℕ → ℕ → Text → ℕ × ℕ
decode_cont lo hi k acc w [] = (0xFFFD, 1)
decode_cont lo hi zero acc w (b ∷ s) =
    if in_range lo hi b then (acc * 64 + (b - 0x80), w + 1) else (0xFFFD, 1)
decode_cont lo hi (suc k) acc w (b ∷ s) =
    let rest = decode_cont 0x80 0xBF k (acc * 64 + (b - 0x80)) (w + 1) s in
    if in_range lo hi b then rest else (0xFFFD, 1)

-- What the first byte of a rune of `k + 2` bytes has above its payload bits.
abbrev lead : ℕ → ℕ
lead zero = 0xC0
lead (suc zero) = 0xE0
lead (suc (suc k)) = 0xF0

-- The rest of a rune whose first byte is `a`, by what may follow.
unfoldable pub decode_expect : Option Expect → ℕ → Text → ℕ × ℕ
unfolding decode_cont
decode_expect none a s = (0xFFFD, 1)
decode_expect (some first) a s = (a, 1)
decode_expect (some (cont lo hi k)) a s = decode_cont lo hi k (a - lead k) 1 s

-- `utf8.DecodeRuneInString` at a first byte and what follows: the rune and its width.
unfoldable pub decode_rune : ℕ → Text → ℕ × ℕ
unfolding decode_expect
decode_rune a s = decode_expect (after_first a) a s

-- The runes of `for _, letter := range s`; the number says how many bytes belong to the last one.
unfoldable pub runes : ℕ → Text → List ℕ
unfolding decode_rune
runes skip [] = []
runes zero (a ∷ s) = let (r, w) = decode_rune a s in r ∷ runes (w - 1) s
runes (suc k) (a ∷ s) = runes k s

pub text_eq_iff : (s t : Text) → (text_eq s t ≡ true) ↔ (s ≡ t)
unfolding text_eq
text_eq_iff [] [] = (λ _. refl, λ _. refl)
text_eq_iff [] (b ∷ t) = ground arith
text_eq_iff (a ∷ s) [] = ground arith
text_eq_iff (a ∷ s) (b ∷ t) = ground (arith, text_eq_iff s t, ==_iff a b)

pub text_eq_refl : (s : Text) → text_eq s s ≡ true
text_eq_refl s = (text_eq_iff s s).1 refl

decode_cont_ge :
    (lo hi k acc w : ℕ) (s : Text)
    → 0x80 ≤ lo
    → 2 ≤ acc * 64 + (lo - 0x80)
    → (k ≡ 0 → 2 ≤ acc)
    → 0x80 ≤ (decode_cont lo hi k acc w s).0
unfolding decode_cont
decode_cont_ge lo hi k acc w [] l h z = omega arith
decode_cont_ge lo hi zero acc w (b ∷ s) l h z = ground (arith, z refl)
decode_cont_ge lo hi (suc k) acc w (b ∷ s) l h z = elim (Bool-cases (in_range lo hi b)) [
  | inl e ↦ rw e (
      decode_cont_ge 0x80 0xBF k (acc * 64 + (b - 0x80)) (w + 1) s (omega arith) (ground arith)
        (λ _. ground arith))
  | inr e ↦ rw e (omega arith)
]

abbrev FollowsFrom : ℕ → Option Expect → Type 0
FollowsFrom a none = Unit {0}
FollowsFrom a (some first) = a < 0x80
FollowsFrom a (some (cont lo hi k)) =
    (0x80 ≤ lo) × (2 ≤ (a - lead k) * 64 + (lo - 0x80)) × (k ≡ 0 → 2 ≤ a - lead k)

after_first-FollowsFrom : (a : ℕ) → FollowsFrom a (after_first a)
after_first-FollowsFrom a = ground arith

decode_expect_ge :
    (e : Option Expect) (a : ℕ) (s : Text)
    → FollowsFrom a e
    → 0x80 ≤ a
    → 0x80 ≤ (decode_expect e a s).0
unfolding decode_expect
decode_expect_ge none a s f h = omega arith
decode_expect_ge (some first) a s f h = h
decode_expect_ge (some (cont lo hi k)) a s f h = decode_cont_ge lo hi k (a - lead k) 1 s f.0 f.1 f.2

-- A byte past ASCII never begins a rune of ASCII.
pub decode_rune_ge : (a : ℕ) (s : Text) → 0x80 ≤ a → 0x80 ≤ (decode_rune a s).0
unfolding decode_rune
decode_rune_ge a s h = decode_expect_ge (after_first a) a s (after_first-FollowsFrom a) h

pub decode_rune_ascii : (a : ℕ) (s : Text) → a < 0x80 → decode_rune a s ≡ (a, 1)
unfolding decode_rune
decode_rune_ascii a s h = ground arith

pub text_eq_sym : (s t : Text) → text_eq s t ≡ text_eq t s
unfolding text_eq
text_eq_sym [] [] = refl
text_eq_sym [] (b ∷ t) = refl
text_eq_sym (a ∷ s) [] = refl
text_eq_sym (a ∷ s) (b ∷ t) = ground (arith, text_eq_sym s t)

-- The order of bytes, first byte first.
unfoldable pub text_leb : Text → Text → Bool
text_leb [] t = true
text_leb (a ∷ s) [] = false
text_leb (a ∷ s) (b ∷ t) = ltb a b || (a == b && text_leb s t)

pub text_leb_total : (s t : Text) → text_leb s t ≡ false → text_leb t s ≡ true
unfolding text_leb
text_leb_total [] t h = cc
text_leb_total (a ∷ s) [] h = refl
text_leb_total (a ∷ s) (b ∷ t) h = ground (arith, text_leb_total s t)

pub text_leb_trans :
    (s t u : Text) → text_leb s t ≡ true → text_leb t u ≡ true → text_leb s u ≡ true
unfolding text_leb
text_leb_trans [] t u h k = refl
text_leb_trans (a ∷ s) [] u h k = cc
text_leb_trans (a ∷ s) (b ∷ t) [] h k = cc
text_leb_trans (a ∷ s) (b ∷ t) (c ∷ u) h k = ground (arith, text_leb_trans s t u)
