-- ===== src/Http/Refusals/Sorting.antt =====
-- How errors are sorted into answers (internal/interfaces/http/errors.go).
use mathlib.Core.Path.{subst}
use kafka_lab.Base.{
  All, Bool, Bool-cases, List, Option, [], ap, arith, false, find, find-append_some, if◌then◌else◌,
  inl, inr, keep, ltb, not, refl, some, true, ℕ, ◌&&◌, ◌++◌, ◌==◌, ◌||◌, ◌∙◌, ◌∷◌, ◌≡◌, ◌≤◌,
}
use kafka_lab.Base.Errors.{
  Error, Sentinel, commit_unknown, first_of_libraries, is, is-append, outcome_unknown,
  rollback_failed, tag,
}
use kafka_lab.Http.Refusals.{
  Refusal, failure_of, outcome_unknown_refusal, refusal_for, refusals, told_as,
}

-- What a library says holds none of the program's own sentinels.
abbrev pub IsForeign : Error → Type 0
IsForeign e = All (λ s. first_of_libraries ≤ tag s) e

-- The program's own sentinels that may stand in the table; a failed rollback only ever follows
-- another error.
abbrev pub is_told : Sentinel → Bool
is_told s = ltb (tag s) first_of_libraries && not (tag s == tag rollback_failed)

abbrev pub is_own : Refusal → Bool
is_own r = is_told r.sentinel

abbrev pub matches : Error → Refusal → Bool
matches e r = is e r.sentinel

-- An error that no row of the program's own matches.
abbrev pub IsUntold : Error → Type 0
IsUntold e = (s : Sentinel) → is_told s ≡ true → is e s ≡ false

or_false : (b : Bool) → (b || false) ≡ b
or_false b = ground arith

different :
    (a b c : ℕ)
    → first_of_libraries ≤ a
    → (ltb b first_of_libraries && not (b == c)) ≡ true
    → (a == b) ≡ false
different a b c h k = ground arith

pub IsForeign-IsUntold : (e : Error) → IsForeign e → IsUntold e
unfolding is
IsForeign-IsUntold [] foreign s told = refl
IsForeign-IsUntold (x ∷ e) foreign s told =
    rw (different (tag x) (tag s) (tag rollback_failed) foreign.0 told)
      (IsForeign-IsUntold e foreign.1 s told)

pub IsUntold-append : (a b : Error) → IsUntold a → IsUntold b → IsUntold (a ++ b)
IsUntold-append a b ha hb s told = is-append a b s ∙ rw (ha s told) (hb s told)

other_tag : (b c : ℕ) → (ltb b first_of_libraries && not (b == c)) ≡ true → (c == b) ≡ false
other_tag b c h = ground arith

pub rollback_failed-IsUntold : (e : Error) → IsUntold e → IsUntold (rollback_failed ∷ e)
unfolding is
rollback_failed-IsUntold e h s told = rw (other_tag (tag s) (tag rollback_failed) told) (h s told)

still_matches :
    (e x : Error) (s : Sentinel) → IsUntold x → is_told s ≡ true → is (e ++ x) s ≡ is e s
still_matches e x s untold told = is-append e x s ∙ rw (untold s told) (or_false (is e s))

find_step :
    (p q : Bool) (row : Refusal) (found found' : Option Refusal)
    → p ≡ q
    → found ≡ found'
    → (if p then some row else found) ≡ (if q then some row else found')
find_step p q row found found' h k = rw (h, k) refl

-- What is untold behind an error does not change which row of the program's own it matches first.
find-untold :
    (e x : Error) (rows : List Refusal)
    → IsUntold x
    → find (matches (e ++ x)) (keep is_own rows) ≡ find (matches e) (keep is_own rows)
find-untold e x [] untold = refl
find-untold e x (row ∷ rows) untold = elim (Bool-cases (is_own row)) [
  | inl own ↦ rw own (
      find_step (is (e ++ x) row.sentinel) (is e row.sentinel) row _ _
        (still_matches e x row.sentinel untold own) (find-untold e x rows untold))
  | inr other ↦ rw other (find-untold e x rows untold)
]

own_rows_first : keep is_own refusals ++ keep (λ r. not (is_own r)) refusals ≡ refusals
unfolding refusals tag
own_rows_first = refl

pub own_first :
    (e x : Error) (row : Refusal)
    → IsUntold x
    → find (matches e) (keep is_own refusals) ≡ some row
    → refusal_for (e ++ x) ≡ failure_of row
unfolding refusal_for told_as
own_first e x row untold h =
    let found : find (matches (e ++ x)) refusals ≡ some row =
      subst (λ rows. find (matches (e ++ x)) rows ≡ some row) own_rows_first
        (find-append_some (matches (e ++ x)) (keep is_own refusals)
          (keep (λ r. not (is_own r)) refusals) row (find-untold e x refusals untold ∙ h)) in
    ap told_as found

-- An error that begins with an unknown outcome is told as one.
pub outcome_unknown_told :
    (x : Error)
    → IsUntold x
    → refusal_for (outcome_unknown ∷ commit_unknown ∷ x) ≡ failure_of outcome_unknown_refusal
unfolding refusals is tag
outcome_unknown_told x untold =
    own_first (outcome_unknown ∷ commit_unknown ∷ []) x outcome_unknown_refusal untold refl
