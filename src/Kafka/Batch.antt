-- ===== src/Kafka/Batch.antt =====
-- internal/infrastructure/kafka/consumer.go and pauses.go: one batch of a poll, its commit, and the
pub mod Prefix
pub mod Order
pub mod Fetched
pub mod Commit
-- partitions that wait.
use kafka_lab.Base.{
  Bool, List, Option, [], false, if◌then◌else◌, none, some, true, ℕ, ◌++◌, ◌==◌, ◌||◌, ◌∷◌, ◌≡◌,
}
use kafka_lab.Base.Int.{ltb_ℤ, pos}
use kafka_lab.Base.Time.{Duration, Time, seconds}
use kafka_lab.Base.Errors.{Error, consume_failed, join}
use kafka_lab.Kafka.Stage.{KafkaRecord, until_due}
use kafka_lab.Kafka.Commits.{Marks, marks_of}
use kafka_lab.Kafka.Routing.{Attempt, Consumer, World, handle_record}

abbrev pub batch_budget : Duration
batch_budget = seconds 15

-- A record of a partition, beside what the world answers if it is handled.
abbrev pub Item : Type 0
Item = KafkaRecord × Attempt

pub record Outcome : Type 0 where
  pub handled : List KafkaRecord
  pub waiting : List (ℕ × KafkaRecord)
  pub failure : Option Error

-- `outcome.waiting[record.Partition] = record`
unfoldable pub hold_at : ℕ → KafkaRecord → List (ℕ × KafkaRecord) → List (ℕ × KafkaRecord)
hold_at p r [] = (p, r) ∷ []
hold_at p r ((q, s) ∷ m) = if p == q then (p, r) ∷ m else (q, s) ∷ hold_at p r m

-- Whether a partition stops before this record: it is not due, or the budget is used up.
unfoldable pub must_wait : Consumer → Time → Item → Bool
must_wait c now (r, a) = ltb_ℤ (pos 0) (until_due c.stage r now) || ltb_ℤ batch_budget a.elapsed

-- One record of the loop, and then the loop over the rest by `later`.
unfoldable pub continue_with :
    (Outcome → World → Outcome × World)
    → KafkaRecord
    → Outcome
    → World
    → Option Error
    → Outcome × World
continue_with later r out w (some e) = (record out { failure = some e }, w)
continue_with later r out w none = later (record out { handled = out.handled ++ (r ∷ []) }) w

unfoldable pub handle_partition : Consumer → Time → List Item → Outcome → World → Outcome × World
unfolding must_wait hold_at continue_with
handle_partition c now [] out w = (out, w)
handle_partition c now ((r, a) ∷ items) out w = elim (must_wait c now (r, a)) [
  | true ↦ (record out { waiting = hold_at r.partition r out.waiting }, w)
  | false ↦
      let (failed, w') = handle_record c a r w in
      continue_with (handle_partition c now items) r out w' failed
]

-- The function that `handleBatch` gives to `EachPartition`: after a failure it does nothing.
unfoldable pub handle_next : Consumer → Time → List Item → Outcome → World → Outcome × World
unfolding handle_partition
handle_next c now items out w = elim out.failure [
  | none ↦ handle_partition c now items out w
  | some e ↦ (out, w)
]

unfoldable pub handle_partitions :
    Consumer → Time → List (List Item) → Outcome → World → Outcome × World
unfolding handle_next
handle_partitions c now [] out w = (out, w)
handle_partitions c now (items ∷ rest) out w =
    let (out', w') = handle_next c now items out w in handle_partitions c now rest out' w'

abbrev pub no_outcome : Outcome
no_outcome = record { handled = []; waiting = []; failure = none }

unfoldable pub handle_batch : Consumer → Time → List (List Item) → World → Outcome × World
unfolding handle_partitions
handle_batch c now partitions w = handle_partitions c now partitions no_outcome w

-- What the group coordinator has taken of the batch, the records that partitions were rewound to,
-- and the error of the poll.
pub record Poll : Type 0 where
  pub committed : Marks
  pub rewound : List (ℕ × KafkaRecord)
  pub error : Option Error

-- The coordinator's answer to a commit: taken, or an error, after which it may be taken all the same.
pub data OffsetAnswer : Type 0 where
  commit_taken : OffsetAnswer
  commit_untaken : Error → Bool → OffsetAnswer

-- The commit of `settle`: an empty one is not sent. What the coordinator takes is the offset behind
-- the highest record of each partition, which commits all before it.
unfoldable pub commit_records : OffsetAnswer → List KafkaRecord → Option Error × Marks
unfolding marks_of
commit_records answer [] = (none, [])
commit_records commit_taken (r ∷ rs) = (none, marks_of (r ∷ rs))
commit_records (commit_untaken e applied) (r ∷ rs) =
    (some (join (consume_failed ∷ []) e), if applied then marks_of (r ∷ rs) else [])

-- `settle`, after the commit.
unfoldable pub settle_after : Outcome → Option Error × Marks → Poll
settle_after out (some e, took) = record { committed = took; rewound = []; error = some e }
settle_after out (none, took) = elim out.failure [
  | some e ↦ record { committed = took; rewound = []; error = some e }
  | none ↦ record { committed = took; rewound = out.waiting; error = none }
]

-- `settle`
unfoldable pub settle : OffsetAnswer → Outcome → Poll
unfolding commit_records settle_after
settle answer out = settle_after out (commit_records answer out.handled)

pub handle_partition-wait :
    (c : Consumer) (now : Time) (r : KafkaRecord) (a : Attempt) (items : List Item) (out : Outcome)
    (w : World)
    → must_wait c now (r, a) ≡ true
    → handle_partition c now ((r, a) ∷ items) out w
      ≡ (record out { waiting = hold_at r.partition r out.waiting }, w)
unfolding handle_partition
handle_partition-wait c now r a items out w h = rw (h, handle_partition)

pub handle_partition-due :
    (c : Consumer) (now : Time) (r : KafkaRecord) (a : Attempt) (items : List Item) (out : Outcome)
    (w : World)
    → must_wait c now (r, a) ≡ false
    → handle_partition c now ((r, a) ∷ items) out w
      ≡ continue_with
          (handle_partition c now items)
          r
          out
          (handle_record c a r w).1
          (handle_record c a r w).0
unfolding handle_partition
handle_partition-due c now r a items out w h = rw (h, handle_partition)
