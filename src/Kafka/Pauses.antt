-- ===== src/Kafka/Pauses.antt =====
-- internal/infrastructure/kafka/pauses.go: the partitions that are not fetched until their record is
-- due.
pub mod Resuming
pub mod Waking
use kafka_lab.Base.{
  Bool, List, Option, [], any, if◌then◌else◌, keep, leb, length, ltb, map, none, not, some, ℕ, ◌&&◌,
  ◌++◌, ◌==◌, ◌∷◌,
}
use kafka_lab.Base.Int.{ltb_ℤ, pos}
use kafka_lab.Base.Time.{Time, time_add, time_after}
use kafka_lab.Base.Errors.{Error, deadline_exceeded, is}
use kafka_lab.Kafka.Stage.{KafkaRecord, Stage, until_due}

-- `pauseSchedule`
abbrev pub Schedule : Type 0
Schedule = List (ℕ × Time)

-- `hold`, a write of the map.
unfoldable pub hold : ℕ → Time → Schedule → Schedule
hold p until [] = (p, until) ∷ []
hold p until ((q, at) ∷ rest) = if p == q then (p, until) ∷ rest else (q, at) ∷ hold p until rest

-- `slices.Sort`
unfoldable pub insert_partition : ℕ → List ℕ → List ℕ
insert_partition p [] = p ∷ []
insert_partition p (q ∷ qs) =
    let rest = insert_partition p qs in if leb p q then p ∷ q ∷ qs else q ∷ rest

unfoldable pub sort_partitions : List ℕ → List ℕ
unfolding insert_partition
sort_partitions [] = []
sort_partitions (p ∷ ps) = insert_partition p (sort_partitions ps)

abbrev pub is_due : Time → ℕ × Time → Bool
is_due now (p, at) = not (time_after at now)

abbrev pub partitions_of : Schedule → List ℕ
partitions_of schedule = map (λ (held : ℕ × Time). held.0) schedule

-- `takeDue`: the partitions that are due, and the schedule without them.
unfoldable pub take_due : Time → Schedule → List ℕ × Schedule
unfolding sort_partitions
take_due now schedule = (
  sort_partitions (partitions_of (keep (is_due now) schedule)),
  keep (λ held. not (is_due now held)) schedule,
)

-- `slices.MinFunc` over the values of a schedule, from its first one on.
unfoldable pub earliest : Time → Schedule → Time
earliest at [] = at
earliest at ((p, other) ∷ rest) =
    let sooner = earliest other rest in
    let same = earliest at rest in if ltb_ℤ other.instant at.instant then sooner else same

-- `next`
unfoldable pub next_due : Schedule → Option Time
unfolding earliest
next_due [] = none
next_due ((p, at) ∷ rest) = some (earliest at rest)

-- `pausedPartitionCameDue`, by whether the consumer's context is done.
unfoldable pub paused_partition_came_due : Bool → ℕ → Error → Bool
unfolding is
paused_partition_came_due context_done records e =
    not context_done && is e deadline_exceeded && records == 0

-- What waits: the schedule, and the partitions that the client does not fetch.
pub record Pausing : Type 0 where
  pub schedule : Schedule
  pub paused : List ℕ

-- `slices.Contains` on partitions.
abbrev pub has_partition : List ℕ → ℕ → Bool
has_partition ps p = any (λ q. q == p) ps

-- `ResumeFetchPartitions` and `PauseFetchPartitions` of the client.
abbrev pub resume_fetch : List ℕ → List ℕ → List ℕ
resume_fetch due paused = keep (λ p. not (has_partition due p)) paused

abbrev pub pause_fetch : List ℕ → List ℕ → List ℕ
pause_fetch not_due paused = paused ++ not_due

-- `resumeDue`
unfoldable pub resume_due : Time → Pausing → Pausing
unfolding take_due
resume_due now s =
    let (due, schedule) = take_due now s.schedule in
    record {
      schedule = schedule;
      paused = if ltb 0 (length due) then resume_fetch due s.paused else s.paused;
    }

-- The loop of `holdUntilDue`: the schedule, and the partitions that are not due.
unfoldable pub hold_waiting : Stage → Time → List (ℕ × KafkaRecord) → Schedule → Schedule × List ℕ
unfolding hold until_due time_add
hold_waiting s now [] schedule = (schedule, [])
hold_waiting s now ((p, r) ∷ waiting) schedule =
    let wait = until_due s r now in
    let (held, not_due) = hold_waiting s now waiting (hold p (time_add now wait) schedule) in
    let others = hold_waiting s now waiting schedule in
    if ltb_ℤ (pos 0) wait then (held, p ∷ not_due) else others

-- `holdUntilDue`, beside the offsets that are set: `waiting` itself.
unfoldable pub hold_until_due : Stage → Time → List (ℕ × KafkaRecord) → Pausing → Pausing
unfolding hold_waiting
hold_until_due s now waiting p =
    let (schedule, not_due) = hold_waiting s now waiting p.schedule in
    record {
      schedule = schedule;
      paused = if ltb 0 (length not_due) then pause_fetch not_due p.paused else p.paused;
    }
