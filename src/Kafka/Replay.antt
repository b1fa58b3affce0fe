-- ===== src/Kafka/Replay.antt =====
-- internal/infrastructure/kafka/replay.go: dead letters of one class sent back into a chain.
pub mod Sending
pub mod InRange
pub mod Done
pub mod Read
pub mod Dealt
pub mod Polls
pub mod Committed
use kafka_lab.Kafka.Ranges.{OffsetRange, Offsets, delete_offset, lookup_offset, set_offset}
use kafka_lab.Base.{
  Bool, List, Option, [], false, if◌then◌else◌, leb, length, ltb, none, not, some, true, ℕ, ◌++◌,
  ◌+◌, ◌==◌, ◌∷◌,
}
use kafka_lab.Base.Text.{Text, text_eq}
use kafka_lab.Base.Errors.{Error, deadline_exceeded, is, join, replay_failed, replay_stalled}
use kafka_lab.Kafka.Stage.{Class, KafkaRecord}
use kafka_lab.Kafka.Headers.{header_dead_letter_class, header_value}
use kafka_lab.Kafka.Detours.{ProduceAnswer, Produced, replay}
use kafka_lab.Kafka.Commits.{Marks, marks_of}
use kafka_lab.Kafka.Batch.{OffsetAnswer, commit_taken, commit_untaken}

pub record ReplayRequest : Type 0 where
  pub dead_letter_topic : Text
  pub class : Class
  pub into : Text
  pub group : Text

pub record ReplayReport : Type 0 where
  pub replayed : ℕ
  pub skipped : ℕ

-- `replayRun`, beside the records that the brokers have stored.
pub record ReplayRun : Type 0 where
  pub remaining : Offsets OffsetRange
  pub report : ReplayReport
  pub log : List Produced

-- A letter, beside the answer of the brokers if it is sent.
abbrev pub Letter : Type 0
Letter = KafkaRecord × ProduceAnswer

unfoldable pub is_requested : ReplayRequest → KafkaRecord → Bool
unfolding header_value
is_requested q r = text_eq (header_value r.headers header_dead_letter_class) q.class

abbrev pub sent_as : ReplayRun → Option Error × List Produced → Option Error × ReplayRun
sent_as run (some e, log) = (some (join (replay_failed ∷ []) e), record run { log = log })
sent_as run (none, log) = (
  none,
  record run { report = record run.report { replayed = run.report.replayed + 1 }; log = log },
)

-- `send`
unfoldable pub send : ReplayRequest → Letter → ReplayRun → Option Error × ReplayRun
unfolding is_requested replay
send q (r, answer) run =
    if not (is_requested q r)
    then (none, record run { report = record run.report { skipped = run.report.skipped + 1 } })
    else sent_as run (replay answer r q.into run.log)

abbrev pub end_of : Option OffsetRange → ℕ
end_of none = 0
end_of (some range) = range.end_offset

-- `advance`
unfoldable pub advance : KafkaRecord → ReplayRun → ReplayRun
unfolding lookup_offset set_offset delete_offset
advance r run =
    let last = end_of (lookup_offset r.partition run.remaining) in
    record run {
      remaining =
          if leb last (r.offset + 1)
          then delete_offset r.partition run.remaining
          else set_offset r.partition (record { next_offset = r.offset + 1; end_offset = last })
              run.remaining;
    }

-- Whether a letter is in the range that was taken at the start.
unfoldable pub is_within : ReplayRun → KafkaRecord → Bool
unfolding lookup_offset
is_within run r = elim (lookup_offset r.partition run.remaining) [
  | none ↦ false
  | some range ↦ ltb r.offset range.end_offset
]

-- The letters that are done, the error that stopped it, and the run.
abbrev pub Sent : Type 0
Sent = (List KafkaRecord × Option Error) × ReplayRun

-- What follows a letter: the end, or the rest of the loop by `later`.
unfoldable pub send_next : (ReplayRun → Sent) → KafkaRecord → Option Error × ReplayRun → Sent
unfolding advance
send_next later r (some e, run) = (([], some e), run)
send_next later r (none, run) =
    let ((done, failure), run') = later (advance r run) in ((r ∷ done, failure), run')

-- `sendAll`
unfoldable pub send_all : ReplayRequest → List Letter → ReplayRun → Sent
unfolding is_within send send_next
send_all q [] run = (([], none), run)
send_all q (letter ∷ letters) run = elim (is_within run letter.0) [
  | false ↦ send_all q letters run
  | true ↦ send_next (send_all q letters) letter.0 (send q letter run)
]

-- `commit`: an empty one is not sent.
unfoldable pub commit_letters : OffsetAnswer → List KafkaRecord → Option Error × Marks
unfolding marks_of
commit_letters answer [] = (none, [])
commit_letters commit_taken (r ∷ rs) = (none, marks_of (r ∷ rs))
commit_letters (commit_untaken e applied) (r ∷ rs) =
    (some (join (replay_failed ∷ []) e), if applied then marks_of (r ∷ rs) else [])

-- What one poll returns, and the coordinator's answer to its commit.
pub record ReplayPoll : Type 0 where
  pub fetch_error : Option Error
  pub letters : List Letter
  pub commit_answer : OffsetAnswer

-- What the coordinator has taken as committed, the error, and the run.
abbrev pub Polled : Type 0
Polled = (Marks × Option Error) × ReplayRun

-- A failed commit is reported first.
abbrev pub reported : Option Error → Option Error × Marks → Marks × Option Error
reported failure (some e, took) = (took, some e)
reported failure (none, took) = (took, failure)

abbrev pub settle_letters : OffsetAnswer → Sent → Polled
settle_letters answer ((done, failure), run) = (reported failure (commit_letters answer done), run)

-- Whether the error of a fetch ends the replay: the end of its own wait does not.
abbrev pub is_fatal_fetch : Option Error → Bool
is_fatal_fetch none = false
is_fatal_fetch (some e) = not (is e deadline_exceeded)

abbrev pub fetch_failure : Option Error → Error
fetch_failure none = []
fetch_failure (some e) = e

-- `pollOnce`
unfoldable pub poll_once : ReplayRequest → ReplayPoll → ReplayRun → Polled
unfolding is send_all commit_letters
poll_once q poll run =
    let sent = settle_letters poll.commit_answer (send_all q poll.letters run) in
    if is_fatal_fetch poll.fetch_error
    then (([], some (join (replay_failed ∷ []) (fetch_failure poll.fetch_error))), run)
    else if length poll.letters == 0
    then (([], some (replay_stalled ∷ [])), run)
    else sent

-- How a replay over so many polls ends: with its error, if any, or not yet.
pub data Ending : Type 0 where
  ended : Option Error → Ending
  polls_used_up : Ending

-- Everything that was committed, how it ended, and the run.
abbrev pub Replayed : Type 0
Replayed = (Marks × Ending) × ReplayRun

-- What follows a poll: the end, or the rest of the loop by `later`.
unfoldable pub poll_next : (ReplayRun → Replayed) → Polled → Replayed
poll_next later ((took, some e), run) = ((took, ended (some e)), run)
poll_next later ((took, none), run) =
    let ((more, ending), run') = later run in ((took ++ more, ending), run')

-- `untilEnd`
unfoldable pub until_end : ReplayRequest → List ReplayPoll → ReplayRun → Replayed
unfolding poll_once poll_next
until_end q [] run =
    if length run.remaining == 0 then (([], ended none), run) else (([], polls_used_up), run)
until_end q (poll ∷ polls) run = elim (length run.remaining == 0) [
  | true ↦ (([], ended none), run)
  | false ↦ poll_next (until_end q polls) (poll_once q poll run)
]
