-- ===== src/Kafka/Replay/InRange.antt =====
-- Which letters a replay is done with (internal/infrastructure/kafka/replay.go).
use kafka_lab.Base.{
  All, Bool, Bool-cases, List, Option, Option-cases, [], ap, arith, false, if◌then◌else◌, inl, inr,
  leb, ltb, map, none, refl, some, sym, ℕ, ◌+◌, ◌==◌, ◌∙◌, ◌∷◌, ◌≡◌, ◌≢◌, ◌≤◌, ◌⊎◌,
}
use kafka_lab.Kafka.Stage.{KafkaRecord}
use kafka_lab.Kafka.Ranges.{OffsetRange, Offsets, delete_offset, lookup_offset, set_offset}
use kafka_lab.Kafka.Replay.{Letter, ReplayRun, advance, end_of, is_within}

abbrev pub before_end : ℕ → Option OffsetRange → Bool
before_end o none = false
before_end o (some range) = ltb o range.end_offset

-- Whether a letter lies before the end that was listed for its partition, if the partition is still to
-- be read.
abbrev pub in_range : Offsets OffsetRange → KafkaRecord → Bool
in_range remaining r = before_end r.offset (lookup_offset r.partition remaining)

-- A letter comes behind another: of another partition, or at a higher offset.
abbrev pub ComesBehind : KafkaRecord → KafkaRecord → Type 0
ComesBehind r s = (s.partition ≢ r.partition) ⊎ (r.offset + 1 ≤ s.offset)

-- Letters in the order in which a client reads each partition.
abbrev pub AreAscending : List KafkaRecord → Type 0
AreAscending [] = Unit {0}
AreAscending (r ∷ rs) = All (ComesBehind r) rs × AreAscending rs

abbrev pub letters_of : List Letter → List KafkaRecord
letters_of letters = map (λ (l : Letter). l.0) letters

module _ {O : Type 0} where
  lookup-delete_self : (p : ℕ) (m : Offsets O) → lookup_offset p (delete_offset p m) ≡ none
  unfolding lookup_offset delete_offset
  lookup-delete_self p [] = refl
  lookup-delete_self p ((q, o) ∷ m) = elim (Bool-cases (q == p)) [
    | inl e ↦ rw e (lookup-delete_self p m)
    | inr e ↦ rw e (rw e (lookup-delete_self p m))
  ]

  lookup-delete_other :
      (p x : ℕ) (m : Offsets O) → x ≢ p → lookup_offset x (delete_offset p m) ≡ lookup_offset x m
  unfolding lookup_offset delete_offset
  lookup-delete_other p x [] h = refl
  lookup-delete_other p x ((q, o) ∷ m) h = ground (arith, lookup-delete_other p x m h)

  lookup-set_self : (p : ℕ) (o : O) (m : Offsets O) → lookup_offset p (set_offset p o m) ≡ some o
  unfolding lookup_offset set_offset
  lookup-set_self p o [] = ground arith
  lookup-set_self p o ((q, o') ∷ m) = ground (arith, lookup-set_self p o m)

  lookup-set_other :
      (p x : ℕ) (o : O) (m : Offsets O)
      → x ≢ p
      → lookup_offset x (set_offset p o m) ≡ lookup_offset x m
  unfolding lookup_offset set_offset
  lookup-set_other p x o [] h = ground arith
  lookup-set_other p x o ((q, o') ∷ m) h = ground (arith, lookup-set_other p x o m h)

-- What is still to be read after a letter is the same for every letter behind it.
advance_other :
    (r s : KafkaRecord) (run : ReplayRun)
    → s.partition ≢ r.partition
    → lookup_offset s.partition (advance r run).remaining ≡ lookup_offset s.partition run.remaining
unfolding advance
advance_other r s run h =
    elim (Bool-cases (leb (end_of (lookup_offset r.partition run.remaining)) (r.offset + 1))) [
      | inl e ↦ rw e (lookup-delete_other r.partition s.partition run.remaining h)
      | inr e ↦ rw e (lookup-set_other r.partition s.partition _ run.remaining h)
    ]

in_range_same :
    (a b : Offsets OffsetRange) (s : KafkaRecord)
    → lookup_offset s.partition a ≡ lookup_offset s.partition b
    → in_range a s ≡ in_range b s
in_range_same a b s h = ap (before_end s.offset) h

-- The range of the letter's own partition after it, by the range before it.
abbrev own_range : ℕ → Option OffsetRange → Option OffsetRange
own_range o before =
    if leb (end_of before) (o + 1)
    then none
    else some (record { next_offset = o + 1; end_offset = end_of before })

advance_own :
    (r : KafkaRecord) (run : ReplayRun)
    → lookup_offset r.partition (advance r run).remaining
      ≡ own_range r.offset (lookup_offset r.partition run.remaining)
unfolding advance
advance_own r run =
    elim (Bool-cases (leb (end_of (lookup_offset r.partition run.remaining)) (r.offset + 1))) [
      | inl e ↦ rw e (lookup-delete_self r.partition run.remaining)
      | inr e ↦ rw e (lookup-set_self r.partition _ run.remaining)
    ]

own_range-before_end :
    (o x : ℕ) (before : Option OffsetRange)
    → o + 1 ≤ x
    → before_end x (own_range o before) ≡ before_end x before
own_range-before_end o x none h = ground arith
own_range-before_end o x (some range) h = elim (Bool-cases (leb range.end_offset (o + 1))) [
  | inl e ↦ rw e (ground arith)
  | inr e ↦ rw e refl
]

in_range-before_end :
    (a : Offsets OffsetRange) (s : KafkaRecord) (p : ℕ)
    → s.partition ≡ p
    → in_range a s ≡ before_end s.offset (lookup_offset p a)
in_range-before_end a s p e = ap (λ x. before_end s.offset (lookup_offset x a)) e

pub advance-in_range :
    (r s : KafkaRecord) (run : ReplayRun)
    → ComesBehind r s
    → in_range (advance r run).remaining s ≡ in_range run.remaining s
advance-in_range r s run (inl other) =
    in_range_same (advance r run).remaining run.remaining s (advance_other r s run other)
advance-in_range r s run (inr later) = elim (Bool-cases (s.partition == r.partition)) [
  | inr e ↦
      in_range_same (advance r run).remaining run.remaining s
        (advance_other r s run (λ q. ground arith))
  | inl e ↦
      let same : s.partition ≡ r.partition = ground arith in
      in_range-before_end (advance r run).remaining s r.partition same
      ∙ ap (before_end s.offset) (advance_own r run)
      ∙ own_range-before_end r.offset s.offset (lookup_offset r.partition run.remaining) later
      ∙ sym (in_range-before_end run.remaining s r.partition same)
]

pub is_within_lem : (run : ReplayRun) (r : KafkaRecord) → is_within run r ≡ in_range run.remaining r
unfolding is_within
is_within_lem run r = elim (Option-cases (lookup_offset r.partition run.remaining)) [
  | inl e ↦ rw (e, is_within) refl
  | inr (range, e) ↦ rw (e, is_within) refl
]
