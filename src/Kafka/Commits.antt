-- ===== src/Kafka/Commits.antt =====
-- What a group has committed (internal/infrastructure/kafka/consumer.go and replay.go).
use kafka_lab.Base.{
  All, Bool, Bool-cases, List, [], any, arith, false, if◌then◌else◌, inl, inr, ltb, refl, ℕ, ◌&&◌,
  ◌+◌, ◌==◌, ◌∷◌, ◌≡◌,
}
use kafka_lab.Kafka.Stage.{KafkaRecord}

-- The offsets of a group: a partition, and the offset that is read next. All before it is committed.
abbrev pub Marks : Type 0
Marks = List (ℕ × ℕ)

-- A mark is only moved up.
unfoldable pub raise_mark : ℕ → ℕ → Marks → Marks
raise_mark p o [] = (p, o) ∷ []
raise_mark p o ((q, o') ∷ marks) =
    if q == p
    then if ltb o' o then (q, o) ∷ marks else (q, o') ∷ marks
    else (q, o') ∷ raise_mark p o marks

-- What `CommitRecords` documents that it commits: for every partition the offset behind the highest
-- of its records.
unfoldable pub marks_of : List KafkaRecord → Marks
unfolding raise_mark
marks_of [] = []
marks_of (r ∷ rs) = raise_mark r.partition (r.offset + 1) (marks_of rs)

-- A record is committed if it lies before the mark of its partition: the group does not read it again.
abbrev pub is_committed : Marks → KafkaRecord → Bool
is_committed marks r = any (λ (m : ℕ × ℕ). (m.0 == r.partition) && ltb r.offset m.1) marks

-- Whether the commit of `s` commits `r` too.
abbrev pub covers : KafkaRecord → KafkaRecord → Bool
covers r s = (s.partition == r.partition) && ltb r.offset (s.offset + 1)

raise_mark-uncommitted :
    (r : KafkaRecord) (p o : ℕ) (marks : Marks)
    → ((p == r.partition) && ltb r.offset o) ≡ false
    → is_committed marks r ≡ false
    → is_committed (raise_mark p o marks) r ≡ false
unfolding raise_mark
raise_mark-uncommitted r p o [] h k = ground arith
raise_mark-uncommitted r p o ((q, o') ∷ marks) h k = elim (Bool-cases (q == p)) [
  | inl e ↦ elim (Bool-cases (ltb o' o)) [
    | inl e' ↦ rw (e, e') (ground arith)
    | inr e' ↦ rw (e, e') k
  ]
  | inr e ↦ rw e (ground (arith, raise_mark-uncommitted r p o marks h))
]

-- A record that no record of a commit covers is not committed by it.
pub marks_of-uncommitted :
    (r : KafkaRecord) (rs : List KafkaRecord)
    → All (λ s. covers r s ≡ false) rs
    → is_committed (marks_of rs) r ≡ false
unfolding marks_of
marks_of-uncommitted r [] h = refl
marks_of-uncommitted r (s ∷ rs) h =
    raise_mark-uncommitted r s.partition (s.offset + 1) (marks_of rs) h.0
      (marks_of-uncommitted r rs h.1)
