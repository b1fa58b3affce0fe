-- ===== src/Kafka/Replay/Polls.antt =====
-- What one poll of a replay commits (internal/infrastructure/kafka/replay.go).
use mathlib.Core.List.{append-nil}
use mathlib.Core.Path.{subst}
use kafka_lab.Base.{
  All, Bool, List, Option, [], false, if◌then◌else◌, keep, length, none, refl, some, sym, true,
  ◌++◌, ◌==◌, ◌∷◌, ◌≡◌,
}
use kafka_lab.Base.Errors.{Error, join, replay_failed, replay_stalled}
use kafka_lab.Kafka.Stage.{KafkaRecord}
use kafka_lab.Kafka.Batch.{OffsetAnswer, commit_taken, commit_untaken}
use kafka_lab.Kafka.Commits.{Marks, is_committed, marks_of-uncommitted}
use kafka_lab.Kafka.Batch.Order.{Misses}
use kafka_lab.Kafka.Replay.{
  Polled, ReplayPoll, ReplayRequest, ReplayRun, Sent, commit_letters, fetch_failure, is_fatal_fetch,
  poll_once, reported, send_all, settle_letters,
}
use kafka_lab.Kafka.Replay.Sending.{send_all-Sends}
use kafka_lab.Kafka.Replay.InRange.{AreAscending, ComesBehind, in_range, letters_of}
use kafka_lab.Kafka.Replay.Done.{DoneOf, IsRest, send_all-DoneOf, send_all-in_range}
use kafka_lab.Kafka.Replay.Dealt.{Extends, IsDealt, IsReplaySafe, SentExactly-IsReplaySafe}

-- What none of these letters commits is not committed.
abbrev pub Uncommits : List KafkaRecord → Marks → Type 0
Uncommits done took = (r : KafkaRecord) → Misses done r → is_committed took r ≡ false

pub commit_letters-Uncommits :
    (answer : OffsetAnswer) (done : List KafkaRecord)
    → Uncommits done (commit_letters answer done).1
unfolding commit_letters
commit_letters-Uncommits answer [] r h = refl
commit_letters-Uncommits commit_taken (s ∷ done) r h = marks_of-uncommitted r (s ∷ done) h
commit_letters-Uncommits (commit_untaken e true) (s ∷ done) r h =
    marks_of-uncommitted r (s ∷ done) h
commit_letters-Uncommits (commit_untaken e false) (s ∷ done) r h = refl

pub reported_took :
    (failure : Option Error) (answered : Option Error × Marks)
    → (reported failure answered).0 ≡ answered.1
reported_took failure (some e, took) = refl
reported_took failure (none, took) = refl

-- With no error all letters in range are done.
abbrev pub Leaves : Option Error → List KafkaRecord → Type 0
Leaves none rest = rest ≡ []
Leaves (some e) rest = Unit {0}

pub reported-Leaves :
    (failure : Option Error) (answered : Option Error × Marks) (rest : List KafkaRecord)
    → IsRest failure rest
    → Leaves (reported failure answered).1 rest
reported-Leaves failure (some e, took) rest h = tt
reported-Leaves none (none, took) rest h = h
reported-Leaves (some e) (none, took) rest h = tt

-- What letters, an error and marks say of what was done.
abbrev pub Committing :
    ReplayRequest → ReplayRun → List KafkaRecord → Option Error → Marks → ReplayRun → Type 0
Committing q run rs failure took run' =
    Extends run.log run'.log
    × ((done : List KafkaRecord) × (rest : List KafkaRecord) × (keep (in_range run.remaining) rs
          ≡ done ++ rest)
        × Leaves failure rest
        × All (IsDealt q run'.log) done
        × Uncommits done took)

pub nothing-Committing :
    (q : ReplayRequest) (run : ReplayRun) (rs : List KafkaRecord) (e : Error)
    → Committing q run rs (some e) [] run
nothing-Committing q run rs e = (
  ([], sym (append-nil run.log)),
  ([], keep (in_range run.remaining) rs, refl, tt, tt, λ r h. refl),
)

pub settled-Committing :
    (q : ReplayRequest) (run : ReplayRun) (rs : List KafkaRecord) (answer : OffsetAnswer)
    (sent : Sent)
    → IsReplaySafe q run sent.0.0 sent.1
    → DoneOf (in_range run.remaining) rs sent.0
    → Committing q run rs
        (settle_letters answer sent).0.1
        (settle_letters answer sent).0.0
        (settle_letters answer sent).1
settled-Committing q run rs answer ((done, failure), run') (grown, dealt) (rest, kept, left) = (
  grown,
  (
    done,
    rest,
    kept,
    reported-Leaves failure (commit_letters answer done) rest left,
    dealt,
    subst (Uncommits done) (sym (reported_took failure (commit_letters answer done)))
        (commit_letters-Uncommits answer done),
  ),
)

abbrev pub PollCommits : ReplayRequest → ReplayRun → List KafkaRecord → Polled → Type 0
PollCommits q run rs ((took, failure), run') = Committing q run rs failure took run'

pub if-PollCommits :
    (q : ReplayRequest) (run : ReplayRun) (rs : List KafkaRecord) (test : Bool) (a b : Polled)
    → PollCommits q run rs a
    → PollCommits q run rs b
    → PollCommits q run rs (if test then a else b)
if-PollCommits q run rs true a b h k = h
if-PollCommits q run rs false a b h k = k

pub poll_once-PollCommits :
    (q : ReplayRequest) (poll : ReplayPoll) (run : ReplayRun)
    → AreAscending (letters_of poll.letters)
    → PollCommits q run (letters_of poll.letters) (poll_once q poll run)
unfolding poll_once
poll_once-PollCommits q poll run order =
    let rs = letters_of poll.letters in
    if-PollCommits q run rs (is_fatal_fetch poll.fetch_error) _ _
      (nothing-Committing q run rs (join (replay_failed ∷ []) (fetch_failure poll.fetch_error)))
      (if-PollCommits q run rs (length poll.letters == 0) _ _
        (nothing-Committing q run rs (replay_stalled ∷ []))
        (settled-Committing q run rs poll.commit_answer (send_all q poll.letters run)
          (SentExactly-IsReplaySafe q run (send_all q poll.letters run)
            (send_all-Sends q poll.letters run))
          (send_all-DoneOf q poll.letters run order)))

pub if-same :
    (test : Bool) (a b : Polled) (s : KafkaRecord) (x : Bool)
    → in_range a.1.remaining s ≡ x
    → in_range b.1.remaining s ≡ x
    → in_range (if test then a else b).1.remaining s ≡ x
if-same true a b s x h k = h
if-same false a b s x h k = k

-- What is in range behind the letters of a poll stays so.
pub poll_once-in_range :
    (q : ReplayRequest) (poll : ReplayPoll) (run : ReplayRun) (s : KafkaRecord)
    → All (λ r. ComesBehind r s) (letters_of poll.letters)
    → in_range (poll_once q poll run).1.remaining s ≡ in_range run.remaining s
unfolding poll_once
poll_once-in_range q poll run s behind = if-same (is_fatal_fetch poll.fetch_error) _ _ s _ refl (
    if-same (length poll.letters == 0) _ _ s _ refl (send_all-in_range q poll.letters run s behind))
