-- ===== src/Kafka/Replay/Read.antt =====
-- Letters in the order in which they are read (internal/infrastructure/kafka/replay.go).
use mathlib.Core.Path.{subst}
use kafka_lab.Base.{
  All, All-imp, Any, Bool-cases, List, Option, [], ap, arith, false, inl, inr, keep, none, refl,
  some, sym, true, ℕ, ◌++◌, ◌+◌, ◌==◌, ◌∙◌, ◌∷◌, ◌≡◌, ◌≤◌, ◌⊎◌,
}
use kafka_lab.Kafka.Stage.{KafkaRecord}
use kafka_lab.Kafka.Commits.{covers}
use kafka_lab.Kafka.Ranges.{OffsetRange, Offsets, lookup_offset}
use kafka_lab.Kafka.Batch.Order.{All-always, All-back, All-front, All-zip, Misses}
use kafka_lab.Kafka.Replay.InRange.{AreAscending, ComesBehind, before_end, in_range}
use kafka_lab.Kafka.Replay.Done.{keep_first, keep_rest}

AreAscending-front : (xs ys : List KafkaRecord) → AreAscending (xs ++ ys) → AreAscending xs
AreAscending-front [] ys h = tt
AreAscending-front (x ∷ xs) ys h =
    (All-front (ComesBehind x) (ComesBehind x) xs ys h.0, AreAscending-front xs ys h.1)

pub AreAscending-parts :
    (xs ys : List KafkaRecord)
    → AreAscending (xs ++ ys)
    → AreAscending xs × AreAscending ys × All (λ s. All (λ r. ComesBehind r s) xs) ys
AreAscending-parts [] ys h = (tt, h, All-always (λ s. Unit {0}) ys (λ s. tt))
AreAscending-parts (x ∷ xs) ys h =
    let (front, back, behind) = AreAscending-parts xs ys h.1 in
    (
      AreAscending-front (x ∷ xs) ys h,
      back,
      All-zip (ComesBehind x) (λ s. All (λ r. ComesBehind r s) xs) ys
          (All-back (ComesBehind x) (ComesBehind x) xs ys h.0) behind,
    )

All-keep :
    (P : KafkaRecord → Type 0) (m : Offsets OffsetRange) (rs : List KafkaRecord)
    → All P rs
    → All (λ s. P s × (in_range m s ≡ true)) (keep (in_range m) rs)
All-keep P m [] h = tt
All-keep P m (r ∷ rs) h = elim (Bool-cases (in_range m r)) [
  | inl e ↦
      subst (All (λ s. P s × (in_range m s ≡ true))) (sym (keep_first (in_range m) r rs e))
        ((h.0, e), All-keep P m rs h.1)
  | inr e ↦
      subst (All (λ s. P s × (in_range m s ≡ true))) (sym (keep_rest (in_range m) r rs e))
        (All-keep P m rs h.1)
]

before_end-later :
    (o x : ℕ) (range : Option OffsetRange)
    → o + 1 ≤ x
    → before_end o range ≡ false
    → before_end x range ≡ false
before_end-later o x none h k = refl
before_end-later o x (some range) h k = ground arith

-- No letter in range covers one before it that is out of range.
beyond-uncovered :
    (m : Offsets OffsetRange) (r s : KafkaRecord)
    → in_range m r ≡ false
    → in_range m s ≡ true
    → ComesBehind r s
    → covers r s ≡ false
beyond-uncovered m r s out inside (inl other) = ground arith
beyond-uncovered m r s out inside (inr later) = elim (Bool-cases (s.partition == r.partition)) [
  | inr e ↦ ground arith
  | inl e ↦
      let same : s.partition ≡ r.partition = ground arith in
      let beyond : in_range m s ≡ false =
        ap (λ p. before_end s.offset (lookup_offset p m)) same
        ∙ before_end-later r.offset s.offset (lookup_offset r.partition m) later out in
      cc
]

earlier-uncovered : (r s : KafkaRecord) → ComesBehind r s → covers s r ≡ false
earlier-uncovered r s (inl other) = ground arith
earlier-uncovered r s (inr later) = ground arith

-- A record is one of these, or none of these commits it.
abbrev pub Sorted : List KafkaRecord → KafkaRecord → Type 0
Sorted done r = Any (λ d. d ≡ r) done ⊎ Misses done r

cons-Sorted :
    (r x d : KafkaRecord) (done : List KafkaRecord)
    → d ≡ r
    → ComesBehind r x
    → Sorted done x
    → Sorted (d ∷ done) x
cons-Sorted r x d done e behind (inl there) = inl (inr there)
cons-Sorted r x d done e behind (inr missed) =
    inr (subst (λ y. covers x y ≡ false) (sym e) (earlier-uncovered r x behind), missed)

head_or : KafkaRecord → List KafkaRecord → KafkaRecord
head_or r [] = r
head_or r (x ∷ xs) = x

tail_of : List KafkaRecord → List KafkaRecord
tail_of [] = []
tail_of (x ∷ xs) = xs

cons-parts :
    (r d : KafkaRecord) (rs ds : List KafkaRecord)
    → ◌≡◌ {A = List KafkaRecord} (r ∷ rs) (d ∷ ds)
    → (d ≡ r) × (rs ≡ ds)
unfolding head_or tail_of
cons-parts r d rs ds e = (sym (ap (head_or r) e), ap tail_of e)

kept_first-Sorted :
    (m : Offsets OffsetRange) (r : KafkaRecord) (rs done rest : List KafkaRecord)
    → r ∷ keep (in_range m) rs ≡ done ++ rest
    → All (ComesBehind r) rs
    → ((ds : List KafkaRecord) → keep (in_range m) rs ≡ ds ++ rest → All (Sorted ds) rs)
    → All (Sorted done) (r ∷ rs)
kept_first-Sorted m r rs [] rest e behind k = All-always (Sorted []) (r ∷ rs) (λ x. inr tt)
kept_first-Sorted m r rs (d ∷ done) rest e behind k =
    let (same, kept) = cons-parts r d (keep (in_range m) rs) (done ++ rest) e in
    (
      inl (inl same),
      All-imp _ _ rs (λ x both. cons-Sorted r x d done same both.0 both.1)
          (All-zip (ComesBehind r) (Sorted done) rs behind (k done kept)),
    )

-- Letters are read in order, and those that are done are the first of those in range: then each letter
-- is done, or no letter that is done commits it.
pub done-Sorted :
    (m : Offsets OffsetRange) (rs done rest : List KafkaRecord)
    → AreAscending rs
    → keep (in_range m) rs ≡ done ++ rest
    → All (Sorted done) rs
done-Sorted m [] done rest order e = tt
done-Sorted m (r ∷ rs) done rest order e = elim (Bool-cases (in_range m r)) [
  | inl inside ↦
      kept_first-Sorted m r rs done rest (sym (keep_first (in_range m) r rs inside) ∙ e) order.0
        (λ ds kept. done-Sorted m rs ds rest order.1 kept)
  | inr out ↦
      let kept = sym (keep_rest (in_range m) r rs out) ∙ e in
      (
        inr (
            All-imp _ _ done (λ s both. beyond-uncovered m r s out both.1 both.0)
              (All-front (λ s. ComesBehind r s × (in_range m s ≡ true)) (λ s. Misses [] s) done rest
                (subst (All (λ s. ComesBehind r s × (in_range m s ≡ true))) kept
                  (All-keep (ComesBehind r) m rs order.0)))),
        done-Sorted m rs done rest order.1 kept,
      )
]
