-- ===== src/Kafka/Replay/Committed.antt =====
-- What a replay commits is dealt with (internal/infrastructure/kafka/replay.go).
use mathlib.Core.List.{append_assoc, append-nil}
use mathlib.Core.Path.{subst}
use kafka_lab.Base.{
  All, All-append, All-imp, Any, Bool, Bool-cases, List, [], any-append, ap, false, inl, inr, keep,
  keep-append, length, ltb, none, refl, some, sym, true, ℕ, ◌&&◌, ◌++◌, ◌==◌, ◌||◌, ◌∙◌, ◌∷◌, ◌≡◌,
  ◌⊎◌,
}
use kafka_lab.Kafka.Stage.{KafkaRecord}
use kafka_lab.Kafka.Detours.{Produced}
use kafka_lab.Kafka.Commits.{Marks, covers, is_committed}
use kafka_lab.Kafka.Batch.Order.{All-back, All-front, Misses}
use kafka_lab.Kafka.Replay.{
  Ending, Polled, ReplayPoll, ReplayRequest, ReplayRun, Replayed, ended, poll_next, poll_once,
  polls_used_up, until_end,
}
use kafka_lab.Kafka.Replay.InRange.{AreAscending, in_range, letters_of}
use kafka_lab.Kafka.Replay.Done.{keep_agree}
use kafka_lab.Kafka.Replay.Read.{AreAscending-parts, done-Sorted}
use kafka_lab.Kafka.Replay.Dealt.{Extends, IsDealt, IsDealt-extends}
use kafka_lab.Kafka.Replay.Polls.{PollCommits, Uncommits, poll_once-PollCommits, poll_once-in_range}

-- The letters of all polls, in the order in which they are read.
abbrev pub all_letters : List ReplayPoll → List KafkaRecord
all_letters [] = []
all_letters (poll ∷ polls) = letters_of poll.letters ++ all_letters polls

abbrev Replays : ReplayRequest → ReplayRun → List KafkaRecord → Replayed → Type 0
Replays q run rs ((took, ending), run') =
    Extends run.log run'.log
    × ((done : List KafkaRecord) × (rest : List KafkaRecord) × (keep (in_range run.remaining) rs
          ≡ done ++ rest)
        × All (IsDealt q run'.log) done
        × Uncommits done took)

over-Replays :
    (q : ReplayRequest) (run : ReplayRun) (rs : List KafkaRecord) (ending : Ending)
    → Replays q run rs (([], ending), run)
over-Replays q run rs ending =
    (([], sym (append-nil run.log)), ([], keep (in_range run.remaining) rs, refl, tt, λ r h. refl))

both-Uncommits :
    (done done' : List KafkaRecord) (took took' : Marks)
    → Uncommits done took
    → Uncommits done' took'
    → Uncommits (done ++ done') (took ++ took')
both-Uncommits done done' took took' h k r missed =
    any-append (λ (m : ℕ × ℕ). (m.0 == r.partition) && ltb r.offset m.1) took took'
    ∙ both_false _ _
        (h r (All-front (λ s. covers r s ≡ false) (λ s. Misses [] s) done done' missed))
        (k r (All-back (λ s. covers r s ≡ false) (λ s. Misses [] s) done done' missed))
  where
    both_false : (a b : Bool) → a ≡ false → b ≡ false → (a || b) ≡ false
    both_false a b e e' = rw (e, e') refl

next-Replays :
    (q : ReplayRequest) (run : ReplayRun) (rs more : List KafkaRecord)
    (later : ReplayRun → Replayed) (polled : Polled)
    → PollCommits q run rs polled
    → All (λ s. in_range polled.1.remaining s ≡ in_range run.remaining s) more
    → ((run1 : ReplayRun) → Replays q run1 more (later run1))
    → Replays q run (rs ++ more) (poll_next later polled)
unfolding poll_next
next-Replays q run rs more later ((took, some e), run1)
      (grown, (done, rest, kept, left, dealt, missed)) same k =
    (
      grown,
      (
        done,
        rest ++ keep (in_range run.remaining) more,
        keep-append (in_range run.remaining) rs more
            ∙ ap (λ l. l ++ keep (in_range run.remaining) more) kept
            ∙ append_assoc done rest (keep (in_range run.remaining) more),
        dealt,
        missed,
      ),
    )
next-Replays q run rs more later ((took, none), run1)
      ((a, ea), (done, rest, kept, left, dealt, missed)) same k =
    let ((b, eb), (done', rest', kept', dealt', missed')) = k run1 in
    (
      (a ++ b, eb ∙ ap (λ l. l ++ b) ea ∙ append_assoc run.log a b),
      (
        done ++ done',
        rest',
        keep-append (in_range run.remaining) rs more
            ∙ ap (λ l. l ++ keep (in_range run.remaining) more)
                (kept ∙ ap (λ l. done ++ l) left ∙ append-nil done)
            ∙ ap (λ l. done ++ l)
                (sym (keep_agree (in_range run1.remaining) (in_range run.remaining) more same)
                  ∙ kept')
            ∙ sym (append_assoc done done' rest'),
        All-append _ done done'
            (All-imp (IsDealt q run1.log) _ done
              (λ r. IsDealt-extends q run1.log (later run1).1.log r (b, eb)) dealt)
            dealt',
        both-Uncommits done done' took (later run1).0.0 missed missed',
      ),
    )

until_end-end :
    (q : ReplayRequest) (polls : List ReplayPoll) (run : ReplayRun)
    → (length run.remaining == 0) ≡ true
    → until_end q polls run ≡ (([], ended none), run)
unfolding until_end
until_end-end q [] run e = rw (e, until_end) refl
until_end-end q (poll ∷ polls) run e = rw (e, until_end) refl

until_end-on :
    (q : ReplayRequest) (poll : ReplayPoll) (polls : List ReplayPoll) (run : ReplayRun)
    → (length run.remaining == 0) ≡ false
    → until_end q (poll ∷ polls) run ≡ poll_next (until_end q polls) (poll_once q poll run)
unfolding until_end
until_end-on q poll polls run e = rw (e, until_end) refl

until_end-Replays :
    (q : ReplayRequest) (polls : List ReplayPoll) (run : ReplayRun)
    → AreAscending (all_letters polls)
    → Replays q run (all_letters polls) (until_end q polls run)
unfolding until_end
until_end-Replays q [] run order = elim (Bool-cases (length run.remaining == 0)) [
  | inl e ↦ rw (e, until_end) (over-Replays q run [] (ended none))
  | inr e ↦ rw (e, until_end) (over-Replays q run [] polls_used_up)
]
until_end-Replays q (poll ∷ polls) run order = elim (Bool-cases (length run.remaining == 0)) [
  | inl e ↦
      subst (Replays q run (all_letters (poll ∷ polls)))
        (sym (until_end-end q (poll ∷ polls) run e))
        (over-Replays q run (all_letters (poll ∷ polls)) (ended none))
  | inr e ↦
      let (first, others, behind) =
        AreAscending-parts (letters_of poll.letters) (all_letters polls) order in
      subst (Replays q run (all_letters (poll ∷ polls))) (sym (until_end-on q poll polls run e)) (
        next-Replays q run (letters_of poll.letters) (all_letters polls) (until_end q polls)
          (poll_once q poll run) (poll_once-PollCommits q poll run first)
          (All-imp _ _ (all_letters polls) (λ s b. poll_once-in_range q poll run s b) behind)
          (λ run1. until_end-Replays q polls run1 others))
]

-- The group reads a letter again, or it is dealt with.
abbrev pub IsLeftOrDealt : ReplayRequest → Marks → List Produced → KafkaRecord → Type 0
IsLeftOrDealt q took log r = (is_committed took r ≡ false) ⊎ IsDealt q log r

one_of-IsDealt :
    (q : ReplayRequest) (log : List Produced) (done : List KafkaRecord) (r : KafkaRecord)
    → All (IsDealt q log) done
    → Any (λ d. d ≡ r) done
    → IsDealt q log r
one_of-IsDealt q log [] r h there = elim there [ ]
one_of-IsDealt q log (d ∷ done) r h (inl e) = subst (IsDealt q log) e h.0
one_of-IsDealt q log (d ∷ done) r h (inr there) = one_of-IsDealt q log done r h.1 there

Replays-IsLeftOrDealt :
    (q : ReplayRequest) (run : ReplayRun) (rs : List KafkaRecord) (replayed : Replayed)
    → AreAscending rs
    → Replays q run rs replayed
    → Extends run.log replayed.1.log × All (IsLeftOrDealt q replayed.0.0 replayed.1.log) rs
Replays-IsLeftOrDealt q run rs ((took, ending), run') order
      (grown, (done, rest, kept, dealt, missed)) =
    (
      grown,
      All-imp _ _ rs
          (λ r sorted. elim sorted [
            | inl there ↦ inr (one_of-IsDealt q run'.log done r dealt there)
            | inr miss ↦ inl (missed r miss)
          ])
          (done-Sorted run.remaining rs done rest order kept),
    )

-- The polls of a replay return letters in the order of their offsets in each partition. Whatever else
-- they return, and however the brokers and the group coordinator answer: what the brokers had stored
-- is still stored, and every letter that a poll returned is left uncommitted by all commits of the
-- replay, or it is of another class than the one requested, or a copy of it is stored in the chain. A
-- commit commits every letter of its partition at or before the committed one.
pub until_end-IsReplaySafe :
    (q : ReplayRequest) (polls : List ReplayPoll) (run : ReplayRun)
    → AreAscending (all_letters polls)
    → let ((took, ending), run') = until_end q polls run in
      Extends run.log run'.log × All (IsLeftOrDealt q took run'.log) (all_letters polls)
until_end-IsReplaySafe q polls run order =
    Replays-IsLeftOrDealt q run (all_letters polls) (until_end q polls run) order
      (until_end-Replays q polls run order)
