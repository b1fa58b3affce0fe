-- ===== src/Kafka/Pauses/Waking.antt =====
-- Every partition that is held is fetched again (internal/infrastructure/kafka/pauses.go).
use mathlib.Core.Path.{subst}
use kafka_lab.Base.{
  Bool, Bool-cases, List, Option, Option-cases, [], any, any-append, ap, arith, false,
  if◌then◌else◌, inl, inr, keep, length, length-keep_parts, ltb, none, not, refl, some, suc, sym,
  true, zero, ℕ, ◌==◌, ◌||◌, ◌∙◌, ◌∷◌, ◌≡◌, ◌≤◌,
}
use kafka_lab.Base.Int.{ltb_ℤ, pos}
use kafka_lab.Base.Time.{Time, time_add}
use kafka_lab.Kafka.Stage.{KafkaRecord, Stage, until_due}
use kafka_lab.Kafka.Pauses.{
  Pausing, Schedule, earliest, has_partition, hold, hold_until_due, hold_waiting, is_due, next_due,
  partitions_of, pause_fetch, resume_due, take_due,
}
use kafka_lab.Kafka.Pauses.Resuming.{
  AreDistinctPartitions, IsInStep, has_partition-hold, hold-AreDistinctPartitions,
  resume_due-IsInStep, some_due,
}

waits :
    (held hold_q not_due here before : Bool)
    → held ≡ (hold_q || not_due)
    → hold_q ≡ (here || before)
    → held ≡ (before || (here || not_due))
waits held hold_q not_due here before h k = ground arith

held-hold_waiting :
    (s : Stage) (now : Time) (waiting : List (ℕ × KafkaRecord)) (schedule : Schedule) (p : ℕ)
    → has_partition (partitions_of (hold_waiting s now waiting schedule).0) p ≡ (
        has_partition (partitions_of schedule) p
        || has_partition (hold_waiting s now waiting schedule).1 p)
unfolding hold_waiting
held-hold_waiting s now [] schedule p = ground arith
held-hold_waiting s now ((q, r) ∷ waiting) schedule p =
    let wait = until_due s r now in
    elim (Bool-cases (ltb_ℤ (pos 0) wait)) [
      | inl e ↦ rw e (
          waits _ _ _ (q == p) (has_partition (partitions_of schedule) p)
            (held-hold_waiting s now waiting (hold q (time_add now wait) schedule) p)
            (has_partition-hold p q (time_add now wait) schedule))
      | inr e ↦ rw e (held-hold_waiting s now waiting schedule p)
    ]

distinct-hold_waiting :
    (s : Stage) (now : Time) (waiting : List (ℕ × KafkaRecord)) (schedule : Schedule)
    → AreDistinctPartitions schedule
    → AreDistinctPartitions (hold_waiting s now waiting schedule).0
unfolding hold_waiting
distinct-hold_waiting s now [] schedule h = h
distinct-hold_waiting s now ((q, r) ∷ waiting) schedule h =
    let wait = until_due s r now in
    elim (Bool-cases (ltb_ℤ (pos 0) wait)) [
      | inl e ↦ rw e (
          distinct-hold_waiting s now waiting (hold q (time_add now wait) schedule)
            (hold-AreDistinctPartitions q (time_add now wait) schedule h))
      | inr e ↦ rw e (distinct-hold_waiting s now waiting schedule h)
    ]

pause-same :
    (not_due ps : List ℕ) (p : ℕ)
    → has_partition (if ltb 0 (length not_due) then pause_fetch not_due ps else ps) p
      ≡ (has_partition ps p || has_partition not_due p)
pause-same [] ps p = ground arith
pause-same (q ∷ not_due) ps p =
    rw (some_due (length not_due)) (any-append (λ x. x == p) ps (q ∷ not_due))

-- Holding the partitions that wait keeps the client in step with the schedule, whatever waits.
pub hold_until_due-IsInStep :
    (s : Stage) (now : Time) (waiting : List (ℕ × KafkaRecord)) (state : Pausing)
    → IsInStep state
    → IsInStep (hold_until_due s now waiting state)
unfolding hold_until_due
hold_until_due-IsInStep s now waiting state h =
    let not_due = (hold_waiting s now waiting state.schedule).1 in
    record {
      same = λ p.
          pause-same not_due state.paused p
          ∙ ap (λ b. b || has_partition not_due p) (h.same p)
          ∙ sym (held-hold_waiting s now waiting state.schedule p);
      distinct = distinct-hold_waiting s now waiting state.schedule h.distinct;
    }

either_due : (a b : Bool) → b ≡ true → (a || b) ≡ true
either_due a b h = ground arith

still_due : (a b c : Bool) → (a || c) ≡ true → (a || (b || c)) ≡ true
still_due a b c h = ground arith

some_kept :
    (f : ℕ × Time → Bool) (schedule : Schedule)
    → any f schedule ≡ true
    → 1 ≤ length (keep f schedule)
some_kept f [] h = ground arith
some_kept f (held ∷ schedule) h = ground (arith, some_kept f schedule)

earliest-sooner :
    (q : ℕ) (at other : Time) (rest : Schedule)
    → ltb_ℤ other.instant at.instant ≡ true
    → earliest at ((q, other) ∷ rest) ≡ earliest other rest
unfolding earliest
earliest-sooner q at other rest e = rw e refl

earliest-later :
    (q : ℕ) (at other : Time) (rest : Schedule)
    → ltb_ℤ other.instant at.instant ≡ false
    → earliest at ((q, other) ∷ rest) ≡ earliest at rest
unfolding earliest
earliest-later q at other rest e = rw e refl

due_itself : (p : ℕ) (at : Time) → any (is_due (earliest at [])) ((p, at) ∷ []) ≡ true
unfolding earliest
due_itself p at = ground arith

-- Some partition is due at the earliest time.
earliest_due :
    (p : ℕ) (at : Time) (rest : Schedule) → any (is_due (earliest at rest)) ((p, at) ∷ rest) ≡ true
earliest_due p at [] = due_itself p at
earliest_due p at ((q, other) ∷ rest) = elim (Bool-cases (ltb_ℤ other.instant at.instant)) [
  | inl e ↦
      subst (λ t. any (is_due t) ((p, at) ∷ (q, other) ∷ rest) ≡ true)
        (sym (earliest-sooner q at other rest e))
        (either_due (is_due (earliest other rest) (p, at))
          (any (is_due (earliest other rest)) ((q, other) ∷ rest)) (earliest_due q other rest))
  | inr e ↦
      subst (λ t. any (is_due t) ((p, at) ∷ (q, other) ∷ rest) ≡ true)
        (sym (earliest-later q at other rest e))
        (still_due (is_due (earliest at rest) (p, at)) (is_due (earliest at rest) (q, other))
          (any (is_due (earliest at rest)) rest) (earliest_due p at rest))
]

fewer_kept :
    (f : ℕ × Time → Bool) (schedule : Schedule)
    → any f schedule ≡ true
    → suc (length (keep (λ held. not (f held)) schedule)) ≤ length schedule
fewer_kept f schedule h = omega (arith, length-keep_parts f schedule, some_kept f schedule h)

-- The loop of `Run` while nothing is fetched: each poll ends when the first paused partition comes
-- due, and `resumeDue` runs at that time.
unfoldable pub wake_up : ℕ → Pausing → Pausing
unfolding next_due resume_due
wake_up zero s = s
wake_up (suc n) s = elim (next_due s.schedule) [ none ↦ s | some at ↦ wake_up n (resume_due at s) ]

some_inj : {a b : Time} → some a ≡ some b → a ≡ b
some_inj h = cc

next_due-any :
    (schedule : Schedule) (at : Time)
    → next_due schedule ≡ some at
    → any (is_due at) schedule ≡ true
unfolding next_due
next_due-any [] at h = ground arith
next_due-any ((p, t) ∷ rest) at h =
    subst (λ now. any (is_due now) ((p, t) ∷ rest) ≡ true) (some_inj h) (earliest_due p t rest)

resume_due-shorter :
    (s : Pausing) (at : Time)
    → next_due s.schedule ≡ some at
    → suc (length (resume_due at s).schedule) ≤ length s.schedule
unfolding resume_due take_due
resume_due-shorter s at h = fewer_kept (is_due at) s.schedule (next_due-any s.schedule at h)

woken :
    (n : ℕ) (s : Pausing) (next : Option Time)
    → next_due s.schedule ≡ next
    → wake_up (suc n) s ≡ elim next [ none ↦ s | some at ↦ wake_up n (resume_due at s) ]
unfolding wake_up
woken n s next h =
    ap (λ (o : Option Time). elim o [ none ↦ s | some at ↦ wake_up n (resume_due at s) ]) h

none_due : (schedule : Schedule) → next_due schedule ≡ none → schedule ≡ []
unfolding next_due
none_due [] h = refl
none_due (held ∷ schedule) h = ground arith

nothing_held :
    (s : Pausing) → IsInStep s → s.schedule ≡ [] → (p : ℕ) → has_partition s.paused p ≡ false
nothing_held s h empty p = h.same p ∙ ap (λ l. has_partition (partitions_of l) p) empty

no_length : (schedule : Schedule) → length schedule ≤ 0 → schedule ≡ []
no_length [] h = refl
no_length (held ∷ schedule) h = ground arith

-- Where the client leaves out exactly the partitions that are scheduled, a consumer that wakes up
-- when the first of them comes due, and again, fetches every partition after as many wake-ups as
-- partitions were held, whatever their times.
pub wake_up-paused :
    (n : ℕ) (s : Pausing) (p : ℕ)
    → IsInStep s
    → length s.schedule ≤ n
    → has_partition (wake_up n s).paused p ≡ false
unfolding wake_up
wake_up-paused zero s p h enough = nothing_held s h (no_length s.schedule enough) p
wake_up-paused (suc n) s p h enough = elim (Option-cases (next_due s.schedule)) [
  | inl e ↦
      subst (λ t. has_partition t.paused p ≡ false) (sym (woken n s none e))
        (nothing_held s h (none_due s.schedule e) p)
  | inr (at, e) ↦
      subst (λ t. has_partition t.paused p ≡ false) (sym (woken n s (some at) e))
        (wake_up-paused n (resume_due at s) p (resume_due-IsInStep at s h)
          (omega (arith, resume_due-shorter s at e, enough)))
]
