-- ===== src/Kafka/Pauses/Resuming.antt =====
-- No partition is paused for longer than its record has to wait
-- (internal/infrastructure/kafka/pauses.go).
use mathlib.Core.Path.{subst}
use kafka_lab.Base.{
  ==_iff, Bool, Bool-cases, List, Option, [], ap, arith, false, if◌then◌else◌, inl, inr, keep,
  length, ltb, none, not, refl, some, suc, sym, true, ℕ, ◌&&◌, ◌==◌, ◌||◌, ◌∙◌, ◌∷◌, ◌≡◌,
}
use kafka_lab.Base.Time.{Time, time_after}
use kafka_lab.Kafka.Pauses.{
  Pausing, Schedule, has_partition, hold, insert_partition, is_due, partitions_of, resume_due,
  resume_fetch, sort_partitions, take_due,
}

-- A partition has one time in a schedule.
abbrev pub AreDistinctPartitions : Schedule → Type 0
AreDistinctPartitions [] = Unit {0}
AreDistinctPartitions ((p, at) ∷ rest) =
    (has_partition (partitions_of rest) p ≡ false) × AreDistinctPartitions rest

-- The client leaves out exactly the partitions that the schedule will bring back.
pub record IsInStep (s : Pausing) : Type 0 where
  pub same : (p : ℕ) → has_partition s.paused p ≡ has_partition (partitions_of s.schedule) p
  pub distinct : AreDistinctPartitions s.schedule

has_partition-insert :
    (p q : ℕ) (ps : List ℕ)
    → has_partition (insert_partition q ps) p ≡ (q == p || has_partition ps p)
unfolding insert_partition
has_partition-insert p q [] = refl
has_partition-insert p q (x ∷ ps) = ground (arith, has_partition-insert p q ps)

has_partition-sort :
    (p : ℕ) (ps : List ℕ) → has_partition (sort_partitions ps) p ≡ has_partition ps p
unfolding sort_partitions
has_partition-sort p [] = refl
has_partition-sort p (q ∷ ps) =
    has_partition-insert p q (sort_partitions ps) ∙ ap (λ b. q == p || b) (has_partition-sort p ps)

length-insert_partition : (q : ℕ) (ps : List ℕ) → length (insert_partition q ps) ≡ suc (length ps)
unfolding insert_partition
length-insert_partition q [] = refl
length-insert_partition q (x ∷ ps) = ground (arith, length-insert_partition q ps)

length-sort_partitions : (ps : List ℕ) → length (sort_partitions ps) ≡ length ps
unfolding sort_partitions
length-sort_partitions [] = refl
length-sort_partitions (q ∷ ps) =
    length-insert_partition q (sort_partitions ps) ∙ ap suc (length-sort_partitions ps)

pub has_partition-hold :
    (p q : ℕ) (until : Time) (schedule : Schedule)
    → has_partition (partitions_of (hold q until schedule)) p
      ≡ (q == p || has_partition (partitions_of schedule) p)
unfolding hold
has_partition-hold p q until [] = refl
has_partition-hold p q until ((x, at) ∷ rest) = ground (arith, has_partition-hold p q until rest)

pub hold-AreDistinctPartitions :
    (q : ℕ) (until : Time) (schedule : Schedule)
    → AreDistinctPartitions schedule
    → AreDistinctPartitions (hold q until schedule)
unfolding hold
hold-AreDistinctPartitions q until [] h = (refl, tt)
hold-AreDistinctPartitions q until ((x, at) ∷ rest) h = elim (Bool-cases (q == x)) [
  | inl e ↦ rw e (ground (arith, ==_iff q x), h.1)
  | inr e ↦ rw e (
    ground (arith, has_partition-hold x q until rest),
    hold-AreDistinctPartitions q until rest h.1,
  )
]

has_partition-keep :
    (f : ℕ → Bool) (p : ℕ) (ps : List ℕ) → has_partition (keep f ps) p ≡ (has_partition ps p && f p)
has_partition-keep f p [] = refl
has_partition-keep f p (q ∷ ps) = elim (Bool-cases (q == p)) [
  | inl e ↦ rw ((==_iff q p).0 e) (ground (arith, has_partition-keep f p ps))
  | inr e ↦ ground (arith, has_partition-keep f p ps)
]

has_partition-partitions_of-keep :
    (f : ℕ × Time → Bool) (p : ℕ) (schedule : Schedule)
    → has_partition (partitions_of schedule) p ≡ false
    → has_partition (partitions_of (keep f schedule)) p ≡ false
has_partition-partitions_of-keep f p [] h = refl
has_partition-partitions_of-keep f p (held ∷ schedule) h =
    ground (arith, has_partition-partitions_of-keep f p schedule)

keep-AreDistinctPartitions :
    (f : ℕ × Time → Bool) (schedule : Schedule)
    → AreDistinctPartitions schedule
    → AreDistinctPartitions (keep f schedule)
keep-AreDistinctPartitions f [] h = tt
keep-AreDistinctPartitions f ((p, at) ∷ rest) h = elim (Bool-cases (f (p, at))) [
  | inl e ↦
      rw e (has_partition-partitions_of-keep f p rest h.0, keep-AreDistinctPartitions f rest h.1)
  | inr e ↦ rw e (keep-AreDistinctPartitions f rest h.1)
]

-- A partition is among those that stay exactly if it was held and is not among those that go.
has_partition-parts :
    (f : ℕ × Time → Bool) (p : ℕ) (schedule : Schedule)
    → AreDistinctPartitions schedule
    → has_partition (partitions_of (keep (λ held. not (f held)) schedule)) p ≡ (
        has_partition (partitions_of schedule) p
        && not (has_partition (partitions_of (keep f schedule)) p))
has_partition-parts f p [] h = refl
has_partition-parts f p ((q, at) ∷ rest) h = elim (Bool-cases (q == p)) [
  | inl e ↦
      let gone : (g : ℕ × Time → Bool) → has_partition (partitions_of (keep g rest)) p ≡ false =
        λ g.
          subst (λ n. has_partition (partitions_of (keep g rest)) n ≡ false) ((==_iff q p).0 e)
            (has_partition-partitions_of-keep g q rest h.0) in
      ground (arith, gone f, gone (λ held. not (f held)))
  | inr e ↦ ground (arith, has_partition-parts f p rest h.1)
]

pub some_due : (n : ℕ) → ltb 0 (suc n) ≡ true
some_due n = ground arith

resume-same :
    (due ps : List ℕ) (p : ℕ)
    → has_partition (if ltb 0 (length due) then resume_fetch due ps else ps) p
      ≡ (has_partition ps p && not (has_partition due p))
resume-same [] ps p = ground arith
resume-same (q ∷ due) ps p =
    rw (some_due (length due)) (has_partition-keep (λ x. not (has_partition (q ∷ due) x)) p ps)

pub resume_due-IsInStep : (now : Time) (s : Pausing) → IsInStep s → IsInStep (resume_due now s)
unfolding resume_due take_due
resume_due-IsInStep now s h =
    let due = keep (is_due now) s.schedule in
    record {
      same = λ p.
          resume-same (sort_partitions (partitions_of due)) s.paused p
          ∙ ap (λ b. b && not (has_partition (sort_partitions (partitions_of due)) p)) (h.same p)
          ∙ ap (λ b. has_partition (partitions_of s.schedule) p && not b)
              (has_partition-sort p (partitions_of due))
          ∙ sym (has_partition-parts (is_due now) p s.schedule h.distinct);
      distinct = keep-AreDistinctPartitions _ s.schedule h.distinct;
    }

-- The time that a partition is held until.
unfoldable pub held_until : ℕ → Schedule → Option Time
held_until p [] = none
held_until p ((q, at) ∷ rest) = if q == p then some at else held_until p rest

has_partition-held :
    (now : Time) (p : ℕ) (at : Time) (schedule : Schedule)
    → AreDistinctPartitions schedule
    → held_until p schedule ≡ some at
    → has_partition (partitions_of (keep (λ held. not (is_due now held)) schedule)) p
      ≡ time_after at now
unfolding held_until
has_partition-held now p at [] d h = ground arith
has_partition-held now p at ((q, t) ∷ rest) d h = elim (Bool-cases (q == p)) [
  | inl e ↦
      let gone : has_partition (partitions_of (keep (λ held. not (is_due now held)) rest)) p
          ≡ false =
        subst
          (λ n. has_partition (partitions_of (keep (λ held. not (is_due now held)) rest)) n ≡ false)
          ((==_iff q p).0 e) (has_partition-partitions_of-keep _ q rest d.0) in
      ground (arith, gone)
  | inr e ↦ ground (arith, has_partition-held now p at rest d.1)
]

-- Where the client leaves out exactly the partitions that are scheduled: after the partitions that
-- are due at a time are resumed it does so still, and a partition that was held until some moment is
-- left out exactly if that moment is after the time.
pub resume_due-held :
    (now : Time) (s : Pausing) (p : ℕ) (at : Time)
    → IsInStep s
    → held_until p s.schedule ≡ some at
    → IsInStep (resume_due now s) × (has_partition (resume_due now s).paused p ≡ time_after at now)
unfolding resume_due take_due
resume_due-held now s p at h held =
    let next = resume_due-IsInStep now s h in
    (next, next.same p ∙ has_partition-held now p at s.schedule h.distinct held)
