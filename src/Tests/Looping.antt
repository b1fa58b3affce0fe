-- ===== src/Tests/Looping.antt =====
-- The loops of the consumer and of a replay.
use kafka_lab.Base.{All, List, [], arith, false, inr, length, map, none, refl, true, ℕ, ◌∷◌, ◌≡◌}
use kafka_lab.Base.Text.{codes, text_eq}
use kafka_lab.Base.Time.{time_after}
use kafka_lab.Base.Errors.{Error, deadline_exceeded, group_session}
use kafka_lab.Kafka.Stage.{Class, KafkaRecord, class_refused, class_undecodable}
use kafka_lab.Kafka.Headers.{header_dead_letter_class, header_value}
use kafka_lab.Kafka.Detours.{acked, produce, replay}
use kafka_lab.Kafka.Batch.{commit_taken, commit_untaken}
use kafka_lab.Kafka.Pauses.{
  Pausing, has_partition, insert_partition, partitions_of, resume_due, sort_partitions, take_due,
}
use kafka_lab.Kafka.Pauses.Resuming.{IsInStep, held_until, resume_due-held}
use kafka_lab.Kafka.Pauses.Waking.{wake_up, wake_up-paused}
use kafka_lab.Kafka.Polling.{Fetch, run}
use kafka_lab.Kafka.Polling.Safety.{IsHonestFetch, IsSafe, run-IsSafe}
use kafka_lab.Kafka.Ranges.{delete_offset, lookup_offset, set_offset}
use kafka_lab.Kafka.Replay.{
  Letter, ReplayPoll, ReplayRequest, ReplayRun, advance, is_requested, is_within, send, send_all,
  send_next, until_end,
}
use kafka_lab.Kafka.Replay.Sending.{SentExactly}
use kafka_lab.Kafka.Replay.InRange.{AreAscending, in_range, letters_of}
use kafka_lab.Kafka.Replay.Done.{DoneOf, send_all-SentExactly}
use kafka_lab.Kafka.Replay.Dealt.{Extends}
use kafka_lab.Kafka.Replay.Committed.{IsLeftOrDealt, all_letters, until_end-IsReplaySafe}
use kafka_lab.Tests.Fixtures.{
  busy-IsHonest, calm-IsHonest, empty_world, fetched, main_consumer, moment, partition,
  partition-IsFetch,
}

-- Two partitions that wait.
abbrev waiting_state : Pausing
waiting_state = record { schedule = (3, moment 50) ∷ (1, moment 40) ∷ []; paused = 1 ∷ 3 ∷ [] }

both_wait :
    (p : ℕ)
    → has_partition waiting_state.paused p ≡ has_partition (partitions_of waiting_state.schedule) p
both_wait p = ground arith

waiting_state-IsInStep : IsInStep waiting_state
waiting_state-IsInStep = record { same = both_wait; distinct = (refl, (refl, tt)) }

resume_run :
    resume_due (moment 40) waiting_state
    ≡ record { schedule = (3, moment 50) ∷ []; paused = 3 ∷ [] }
unfolding resume_due take_due sort_partitions insert_partition
resume_run = refl

resume_due-held_example :
    IsInStep (resume_due (moment 40) waiting_state)
    × (has_partition (resume_due (moment 40) waiting_state).paused 3
        ≡ time_after (moment 50) (moment 40))
unfolding held_until
resume_due-held_example =
    resume_due-held (moment 40) waiting_state 3 (moment 50) waiting_state-IsInStep refl

wake_up-paused_example : has_partition (wake_up 2 waiting_state).paused 3 ≡ false
wake_up-paused_example = wake_up-paused 2 waiting_state 3 waiting_state-IsInStep (omega arith)

abbrev nothing_waits : Pausing
nothing_waits = record { schedule = []; paused = [] }

nothing_waits-IsInStep : IsInStep nothing_waits
nothing_waits-IsInStep = record { same = λ p. refl; distinct = tt }

-- A round that fetches, one that loses its session, and one whose context is done.
abbrev round_of : List Error → Fetch
round_of errors = record {
  done_before = false;
  done_after = false;
  resumed_at = moment 1999;
  errors = errors;
  partitions = partition ∷ [];
  now = moment 2000;
  commit_answer = commit_taken;
  held_at = moment 2001;
}

abbrev rounds_of_three : List Fetch
rounds_of_three =
    round_of []
    ∷ round_of ((group_session ∷ []) ∷ [])
    ∷ record (round_of []) { done_before = true }
    ∷ []

honest_partitions : IsHonestFetch (round_of [])
honest_partitions = (partition-IsFetch, ((calm-IsHonest, (calm-IsHonest, (busy-IsHonest, tt))), tt))

run-IsSafe_example :
    IsSafe main_consumer empty_world rounds_of_three
      (run main_consumer rounds_of_three (empty_world, nothing_waits))
run-IsSafe_example =
    run-IsSafe main_consumer rounds_of_three empty_world nothing_waits
      (honest_partitions, (honest_partitions, (honest_partitions, tt))) nothing_waits-IsInStep

abbrev letter : ℕ → Class → KafkaRecord
letter offset class = record (fetched offset (codes "7") (1 ∷ 0 ∷ [])) {
  topic = codes "payments.dlq";
  headers = record { key = header_dead_letter_class; value = class } ∷ [];
}

abbrev refused_letters : ReplayRequest
refused_letters = record {
  dead_letter_topic = codes "payments.dlq";
  class = class_refused;
  into = codes "payments-consumer.retry.5s";
  group = codes "replay";
}

abbrev start_run : ReplayRun
start_run = record {
  remaining = (3, record { next_offset = 10; end_offset = 12 }) ∷ [];
  report = record { replayed = 0; skipped = 0 };
  log = [];
}

abbrev letters : List Letter
letters =
    (letter 10 class_undecodable, acked)
    ∷ (letter 11 class_refused, acked)
    ∷ (letter 12 class_refused, acked)
    ∷ []

-- The letter behind the end that was taken at the start is left for the next replay.
letters_run :
    let ((done, failure), run') = send_all refused_letters letters start_run in
    (map (λ (r : KafkaRecord). r.offset) done ≡ 10 ∷ 11 ∷ [])
    × (failure ≡ none)
    × (length run'.log ≡ 1)
    × (length run'.remaining ≡ 0)
unfolding send_all send send_next advance is_within is_requested header_value text_eq replay produce
    lookup_offset set_offset delete_offset
letters_run = (refl, refl, refl, refl)

letters-AreAscending : AreAscending (letters_of letters)
letters-AreAscending =
    ((inr (omega arith), (inr (omega arith), tt)), ((inr (omega arith), tt), (tt, tt)))

send_all-SentExactly_example :
    DoneOf
      (in_range start_run.remaining)
      (letters_of letters)
      (send_all refused_letters letters start_run).0
    × SentExactly refused_letters start_run (send_all refused_letters letters start_run)
send_all-SentExactly_example =
    send_all-SentExactly refused_letters letters start_run letters-AreAscending

abbrev replay_polls : List ReplayPoll
replay_polls =
    record {
      fetch_error = none;
      letters = letters;
      commit_answer = commit_untaken (deadline_exceeded ∷ []) true;
    }
    ∷ []

until_end-IsReplaySafe_example :
    let ((took, ending), run') = until_end refused_letters replay_polls start_run in
    Extends start_run.log run'.log
    × All (IsLeftOrDealt refused_letters took run'.log) (all_letters replay_polls)
until_end-IsReplaySafe_example =
    until_end-IsReplaySafe refused_letters replay_polls start_run letters-AreAscending
