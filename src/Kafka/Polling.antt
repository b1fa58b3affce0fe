-- ===== src/Kafka/Polling.antt =====
-- internal/infrastructure/kafka/consumer.go: the poll loop of a stage.
pub mod Safety
use kafka_lab.Base.{
  Bool, List, Option, [], false, if◌then◌else◌, length, none, some, true, ℕ, ◌+◌, ◌||◌, ◌∷◌,
}
use kafka_lab.Base.Time.{Time}
use kafka_lab.Base.Errors.{Error, consume_failed, data_loss, group_session, is, join}
use kafka_lab.Kafka.Stage.{Stage}
use kafka_lab.Kafka.Commits.{Marks}
use kafka_lab.Kafka.Routing.{Consumer, World, stopping}
use kafka_lab.Kafka.Batch.{Item, OffsetAnswer, Outcome, Poll, handle_batch, settle}
use kafka_lab.Kafka.Pauses.{Pausing, hold_until_due, paused_partition_came_due, resume_due}

-- Whether the session of the group is lost, and the first error that stops the consumer.
abbrev pub Sorted : Type 0
Sorted = Bool × Option Error

-- `sortFetchErrors`
unfoldable pub sort_fetch_errors : List Error → Sorted
unfolding is
sort_fetch_errors [] = (false, none)
sort_fetch_errors (e ∷ errors) =
    let (lost, fatal) = sort_fetch_errors errors in
    if is e group_session || is e data_loss
    then (is e group_session || lost, fatal)
    else (lost, some e)

-- What one round of the loop meets: whether the context is done before it and after the poll, the
-- time at which due partitions are resumed, what the poll returns, the time at which the batch
-- begins, the coordinator's answer, and the time at which partitions are held.
pub record Fetch : Type 0 where
  pub done_before : Bool
  pub done_after : Bool
  pub resumed_at : Time
  pub errors : List Error
  pub partitions : List (List Item)
  pub now : Time
  pub commit_answer : OffsetAnswer
  pub held_at : Time

abbrev pub count_records : List (List Item) → ℕ
count_records [] = 0
count_records (items ∷ rest) = length items + count_records rest

-- `fetchFailed`
unfoldable pub fetch_failed : Fetch → Error → Option Error
unfolding paused_partition_came_due
fetch_failed f fatal =
    if paused_partition_came_due f.done_after (count_records f.partitions) fatal
    then none
    else some (join (consume_failed ∷ []) fatal)

-- The tables and logs, and what waits.
abbrev pub Loop : Type 0
Loop = World × Pausing

-- What a round committed, and its error.
abbrev pub Round : Type 0
Round = (Marks × Option Error) × Loop

-- What each round committed, and the error that ended the loop.
abbrev pub Ran : Type 0
Ran = (List Marks × Option Error) × Loop

-- The end of `settle`: after a failure nothing is held.
abbrev pub hold_settled : Stage → Fetch → Poll → Pausing → Pausing
hold_settled s f poll p = elim poll.error [
  | none ↦ hold_until_due s f.held_at poll.rewound p
  | some e ↦ p
]

-- `settle` of a batch, with the partitions that wait.
unfoldable pub settle_batch : Consumer → Fetch → Pausing → Outcome × World → Round
unfolding settle hold_until_due
settle_batch c f p (out, w) =
    let poll = settle f.commit_answer out in
    ((poll.committed, poll.error), (w, hold_settled c.stage f poll p))

-- `poll`, by what the errors of the fetch come to.
unfoldable pub poll_sorted : Consumer → Fetch → Loop → Sorted → Round
unfolding fetch_failed handle_batch settle_batch
poll_sorted c f (w, p) (lost, some fatal) = (([], fetch_failed f fatal), (w, p))
poll_sorted c f (w, p) (true, none) = (([], none), (w, p))
poll_sorted c f (w, p) (false, none) = settle_batch c f p (handle_batch c f.now f.partitions w)

-- `poll`
unfoldable pub poll : Consumer → Fetch → Loop → Round
unfolding sort_fetch_errors poll_sorted
poll c f l = poll_sorted c f l (sort_fetch_errors f.errors)

-- `Run` returns the error, unless it is the consumer being stopped.
unfoldable pub stopped_with : Error → Option Error
unfolding stopping
stopped_with e = if stopping e then none else some e

-- What follows a round: the end of `Run`, or the rest of the loop by `later`.
unfoldable pub round_next : (Loop → Ran) → Round → Ran
unfolding stopped_with
round_next later ((took, some e), l) = ((took ∷ [], stopped_with e), l)
round_next later ((took, none), l) =
    let ((more, failure), l') = later l in ((took ∷ more, failure), l')

-- `Run`, over so many rounds.
unfoldable pub run : Consumer → List Fetch → Loop → Ran
unfolding resume_due poll round_next
run c [] l = (([], none), l)
run c (f ∷ fetches) (w, p) = elim f.done_before [
  | true ↦ (([], none), (w, p))
  | false ↦ round_next (run c fetches) (poll c f (w, resume_due f.resumed_at p))
]
