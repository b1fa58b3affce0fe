-- ===== src/Kafka/Batch/Commit.antt =====
-- What a poll commits is done (internal/infrastructure/kafka/consumer.go).
use kafka_lab.Base.{
  All, All-imp, List, Option, [], arith, false, inl, inr, none, refl, some, true, ◌∷◌, ◌≡◌, ◌⊎◌,
}
use kafka_lab.Base.Time.{Time}
use kafka_lab.Base.Errors.{Error}
use kafka_lab.Kafka.Stage.{KafkaRecord}
use kafka_lab.Kafka.Commits.{Marks, is_committed, marks_of-uncommitted}
use kafka_lab.Kafka.Routing.{Consumer, World}
use kafka_lab.Kafka.Routing.Growth.{Grows}
use kafka_lab.Kafka.Batch.{
  Item, OffsetAnswer, Outcome, commit_records, commit_taken, commit_untaken, handle_batch,
  no_outcome, settle, settle_after,
}
use kafka_lab.Kafka.Batch.Prefix.{AllHonest, IsKept, records_of}
use kafka_lab.Kafka.Batch.Order.{All-always, AllMissed, IsFetch, Misses}
use kafka_lab.Kafka.Batch.Fetched.{Dealt, partitions-AllDealt}

commit_records-uncommitted :
    (r : KafkaRecord) (answer : OffsetAnswer) (rs : List KafkaRecord)
    → Misses rs r
    → is_committed (commit_records answer rs).1 r ≡ false
unfolding commit_records
commit_records-uncommitted r answer [] h = refl
commit_records-uncommitted r commit_taken (s ∷ rs) h = marks_of-uncommitted r (s ∷ rs) h
commit_records-uncommitted r (commit_untaken e true) (s ∷ rs) h = marks_of-uncommitted r (s ∷ rs) h
commit_records-uncommitted r (commit_untaken e false) (s ∷ rs) h = refl

settle_after-committed :
    (out : Outcome) (sent : Option Error × Marks) → (settle_after out sent).committed ≡ sent.1
unfolding settle_after
settle_after-committed out (some e, took) = refl
settle_after-committed out (none, took) = ground arith

-- The group reads a record again, or its work is safe.
abbrev pub IsNotLost : Consumer → World → Marks → KafkaRecord → Type 0
IsNotLost c w marks r = (is_committed marks r ≡ false) ⊎ IsKept c w r

abbrev pub AllNotLost : Consumer → World → Marks → List (List Item) → Type 0
AllNotLost c w marks partitions =
    All (λ (items : List Item). All (IsNotLost c w marks) (records_of items)) partitions

settled-IsNotLost :
    (c : Consumer) (w : World) (answer : OffsetAnswer) (out : Outcome) (r : KafkaRecord)
    → Dealt c w out.handled r
    → IsNotLost c w (settle answer out).committed r
unfolding settle
settled-IsNotLost c w answer out r (inl missed) = inl (
    rw (settle_after-committed out (commit_records answer out.handled))
      (commit_records-uncommitted r answer out.handled missed))
settled-IsNotLost c w answer out r (inr kept) = inr kept

nothing-AllMissed : (partitions : List (List Item)) → AllMissed [] partitions
nothing-AllMissed partitions =
    All-always (λ (items : List Item). All (Misses []) (records_of items)) partitions
      (λ items. All-always (Misses []) (records_of items) (λ r. tt))

pub handle_batch-Grows :
    (c : Consumer) (now : Time) (partitions : List (List Item)) (w : World)
    → IsFetch partitions
    → All AllHonest partitions
    → Grows w (handle_batch c now partitions w).1
unfolding handle_batch
handle_batch-Grows c now partitions w fetch honest =
    (partitions-AllDealt c now partitions no_outcome w fetch honest tt
      (nothing-AllMissed partitions)).0

-- A poll fetches each partition once and its records in the order of their offsets. Whatever was
-- fetched and however the database, the brokers and the group coordinator answered, every fetched
-- record is either not committed by the poll, no record of its partition at its offset or behind it
-- being committed, or its work is safe in the tables and logs as the batch left them: its event is
-- claimed in the inbox, or a copy with its key, its bytes and its event id is stored on the next
-- tier's topic or the dead letter topic.
pub poll-commits-IsKept :
    (c : Consumer) (now : Time) (partitions : List (List Item)) (w : World) (answer : OffsetAnswer)
    → IsFetch partitions
    → All AllHonest partitions
    → let (out, w') = handle_batch c now partitions w in
      AllNotLost c w' (settle answer out).committed partitions
unfolding handle_batch
poll-commits-IsKept c now partitions w answer fetch honest =
    let (out, w') = handle_batch c now partitions w in
    All-imp _ _ partitions
      (λ items dealt.
        All-imp _ _ (records_of items) (λ r d. settled-IsNotLost c w' answer out r d) dealt)
      (partitions-AllDealt c now partitions no_outcome w fetch honest tt
        (nothing-AllMissed partitions)).1
