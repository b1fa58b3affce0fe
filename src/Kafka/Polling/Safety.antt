-- ===== src/Kafka/Polling/Safety.antt =====
-- What a consumer has committed over its life is done (internal/infrastructure/kafka/consumer.go).
use mathlib.Core.Path.{subst}
use kafka_lab.Base.{
  All, All-imp, Bool-cases, List, Option-cases, [], false, inl, inr, none, refl, some, sym, true,
  ◌∷◌, ◌≡◌,
}
use kafka_lab.Kafka.Stage.{Stage}
use kafka_lab.Kafka.Routing.{Consumer, World}
use kafka_lab.Kafka.Routing.Growth.{Grows, Grows-refl, Grows-trans}
use kafka_lab.Kafka.Commits.{Marks}
use kafka_lab.Kafka.Batch.{Item, Poll, handle_batch, settle}
use kafka_lab.Kafka.Batch.Prefix.{AllHonest, Grows-IsKept, records_of}
use kafka_lab.Kafka.Batch.Order.{All-always, IsFetch}
use kafka_lab.Kafka.Batch.Commit.{AllNotLost, IsNotLost, handle_batch-Grows, poll-commits-IsKept}
use kafka_lab.Kafka.Pauses.{Pausing, resume_due}
use kafka_lab.Kafka.Pauses.Resuming.{IsInStep, resume_due-IsInStep}
use kafka_lab.Kafka.Pauses.Waking.{hold_until_due-IsInStep}
use kafka_lab.Kafka.Polling.{
  Fetch, Loop, Ran, Round, Sorted, hold_settled, poll, poll_sorted, round_next, run, settle_batch,
  sort_fetch_errors,
}

-- What each round committed has lost none of the records that it fetched.
abbrev pub RoundsNotLost : Consumer → World → List Marks → List Fetch → Type 0
RoundsNotLost c w [] fetches = Unit {0}
RoundsNotLost c w (took ∷ more) [] = ⊥
RoundsNotLost c w (took ∷ more) (f ∷ fetches) =
    AllNotLost c w took f.partitions × RoundsNotLost c w more fetches

-- The tables and logs have only grown, no round has lost a record, and the client leaves out exactly
-- the partitions that are scheduled.
abbrev pub IsSafe : Consumer → World → List Fetch → Ran → Type 0
IsSafe c w fetches ((took, failure), (w', p)) =
    Grows w w' × RoundsNotLost c w' took fetches × IsInStep p

abbrev RoundIsSafe : Consumer → World → Fetch → Round → Type 0
RoundIsSafe c w f ((took, failure), (w', p)) =
    Grows w w' × AllNotLost c w' took f.partitions × IsInStep p

AllNotLost-Grows :
    (c : Consumer) (w w' : World) (took : Marks) (ps : List (List Item))
    → Grows w w'
    → AllNotLost c w took ps
    → AllNotLost c w' took ps
AllNotLost-Grows c w w' took ps g h =
    All-imp _ _ ps
      (λ items lost.
        All-imp _ _ (records_of items)
          (λ r one. elim one [ inl e ↦ inl e | inr kept ↦ inr (Grows-IsKept c w w' r g kept) ])
          lost)
      h

nothing-AllNotLost : (c : Consumer) (w : World) (ps : List (List Item)) → AllNotLost c w [] ps
nothing-AllNotLost c w ps =
    All-always (λ (items : List Item). All (IsNotLost c w []) (records_of items)) ps
      (λ items. All-always (IsNotLost c w []) (records_of items) (λ r. inl refl))

abbrev pub IsHonestFetch : Fetch → Type 0
IsHonestFetch f = IsFetch f.partitions × All AllHonest f.partitions

hold_settled-IsInStep :
    (s : Stage) (f : Fetch) (poll : Poll) (p : Pausing)
    → IsInStep p
    → IsInStep (hold_settled s f poll p)
hold_settled-IsInStep s f poll p h = elim (Option-cases poll.error) [
  | inl e ↦ rw e (hold_until_due-IsInStep s f.held_at poll.rewound p h)
  | inr (x, e) ↦ rw e h
]

sorted-IsSafe :
    (c : Consumer) (f : Fetch) (w : World) (p : Pausing) (sorted : Sorted)
    → IsHonestFetch f
    → IsInStep p
    → RoundIsSafe c w f (poll_sorted c f (w, p) sorted)
unfolding poll_sorted settle_batch
sorted-IsSafe c f w p (lost, some fatal) honest h =
    (Grows-refl w, nothing-AllNotLost c w f.partitions, h)
sorted-IsSafe c f w p (true, none) honest h = (Grows-refl w, nothing-AllNotLost c w f.partitions, h)
sorted-IsSafe c f w p (false, none) honest h = (
  handle_batch-Grows c f.now f.partitions w honest.0 honest.1,
  poll-commits-IsKept c f.now f.partitions w f.commit_answer honest.0 honest.1,
  hold_settled-IsInStep c.stage f (settle f.commit_answer (handle_batch c f.now f.partitions w).0) p
      h,
)

next-IsSafe :
    (c : Consumer) (w : World) (f : Fetch) (fetches : List Fetch) (later : Loop → Ran)
    (round : Round)
    → RoundIsSafe c w f round
    → ((w1 : World) (p1 : Pausing) → IsInStep p1 → IsSafe c w1 fetches (later (w1, p1)))
    → IsSafe c w (f ∷ fetches) (round_next later round)
unfolding round_next
next-IsSafe c w f fetches later ((took, some e), (w1, p1)) (g, kept, h) k = (g, (kept, tt), h)
next-IsSafe c w f fetches later ((took, none), (w1, p1)) (g, kept, h) k =
    let (g', kept', h') = k w1 p1 h in
    (Grows-trans w w1 _ g g', (AllNotLost-Grows c w1 _ took f.partitions g' kept, kept'), h')

run-over :
    (c : Consumer) (f : Fetch) (fetches : List Fetch) (w : World) (p : Pausing)
    → f.done_before ≡ true
    → run c (f ∷ fetches) (w, p) ≡ (([], none), (w, p))
unfolding run
run-over c f fetches w p e = rw (e, run) refl

run-on :
    (c : Consumer) (f : Fetch) (fetches : List Fetch) (w : World) (p : Pausing)
    → f.done_before ≡ false
    → run c (f ∷ fetches) (w, p)
      ≡ round_next (run c fetches) (poll c f (w, resume_due f.resumed_at p))
unfolding run
run-on c f fetches w p e = rw (e, run) refl

-- Over any number of rounds of the poll loop, whatever is fetched and whatever the database, the
-- brokers, the coordinator and the clocks answer, if each poll fetches a partition once and its records
-- in the order of their offsets: no claim and no stored copy is lost; every record that a round
-- fetched is left uncommitted by the round's commit, or at the end its event is claimed in the inbox
-- or a copy of it is stored on the next tier's topic or the dead letter topic; and if at the start the client left out exactly the partitions
-- that were scheduled, then so it does at the end.
pub run-IsSafe :
    (c : Consumer) (fetches : List Fetch) (w : World) (p : Pausing)
    → All IsHonestFetch fetches
    → IsInStep p
    → IsSafe c w fetches (run c fetches (w, p))
unfolding run poll
run-IsSafe c [] w p honest h = (Grows-refl w, tt, h)
run-IsSafe c (f ∷ fetches) w p honest h = elim (Bool-cases f.done_before) [
  | inl e ↦
      subst (IsSafe c w (f ∷ fetches)) (sym (run-over c f fetches w p e)) (Grows-refl w, tt, h)
  | inr e ↦ subst (IsSafe c w (f ∷ fetches)) (sym (run-on c f fetches w p e)) (
      next-IsSafe c w f fetches (run c fetches) _
        (sorted-IsSafe c f w (resume_due f.resumed_at p) (sort_fetch_errors f.errors) honest.0
          (resume_due-IsInStep f.resumed_at p h))
        (λ w1 p1. run-IsSafe c fetches w1 p1 honest.1))
]
