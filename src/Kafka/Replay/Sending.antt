-- ===== src/Kafka/Replay/Sending.antt =====
-- What a replay has sent for the letters that it is done with
-- (internal/infrastructure/kafka/replay.go).
use mathlib.Core.List.{append_assoc, append-nil}
use kafka_lab.Base.{
  Bool-cases, List, Option, [], ap, arith, false, if◌then◌else◌, inl, inr, keep, length, none, not,
  refl, some, sym, true, ℕ, ◌++◌, ◌+◌, ◌||◌, ◌∙◌, ◌∷◌, ◌≡◌, ◌≤◌,
}
use kafka_lab.Base.Text.{codes, has_prefix, text_eq}
use kafka_lab.Base.Errors.{Error}
use kafka_lab.Kafka.Stage.{Header, KafkaRecord}
use kafka_lab.Kafka.Headers.{replay_headers}
use kafka_lab.Kafka.Detours.{
  ProduceAnswer, Produced, acked, produce, replay, replayed_record, unacked,
}
use kafka_lab.Kafka.Replay.{
  Letter, ReplayReport, ReplayRequest, ReplayRun, Sent, advance, is_requested, is_within, send,
  send_all, send_next, sent_as,
}

-- The copy of a letter that goes back into the chain: its key and its bytes, without the headers that
-- its detours left on it, as a first attempt.
abbrev pub copy_of : ReplayRequest → KafkaRecord → Produced
copy_of q r = record {
  topic = q.into;
  key = r.key;
  value = r.value;
  headers =
      keep
        (λ (h : Header).
          not (text_eq h.key (codes "retry_attempt") || has_prefix h.key (codes "dlq_")))
        r.headers
      ++ (record { key = codes "retry_attempt"; value = codes "1" } ∷ []);
}

-- The copies that are sent for letters: one for each of the requested class, in order.
abbrev pub copies : ReplayRequest → List KafkaRecord → List Produced
copies q [] = []
copies q (r ∷ rs) = let rest = copies q rs in if is_requested q r then copy_of q r ∷ rest else rest

abbrev pub count_requested : ReplayRequest → List KafkaRecord → ℕ
count_requested q rs = length (keep (is_requested q) rs)

-- What was stored beyond the copies of the letters that are done: nothing, or after a failure at
-- most one copy.
abbrev pub Beyond : Option Error → List Produced → Type 0
Beyond none extra = extra ≡ []
Beyond (some e) extra = length extra ≤ 1

-- The log and the report after so many letters.
abbrev pub SentExactly : ReplayRequest → ReplayRun → Sent → Type 0
SentExactly q run ((done, failure), run') =
    ((extra : List Produced) × (run'.log ≡ run.log ++ (copies q done ++ extra))
      × Beyond failure extra)
    × (run'.report.replayed ≡ run.report.replayed + count_requested q done)
    × (run'.report.replayed + run'.report.skipped
        ≡ run.report.replayed + run.report.skipped + length done)

-- What one letter leaves.
abbrev SentOne : ReplayRequest → KafkaRecord → ReplayRun → Option Error × ReplayRun → Type 0
SentOne q r run (none, run') =
    (run'.log ≡ run.log ++ copies q (r ∷ []))
    × (run'.report.replayed ≡ run.report.replayed + count_requested q (r ∷ []))
    × (run'.report.replayed + run'.report.skipped ≡ run.report.replayed + run.report.skipped + 1)
SentOne q r run (some e, run') =
    ((extra : List Produced) × (run'.log ≡ run.log ++ extra) × (length extra ≤ 1))
    × (run'.report ≡ run.report)

sent_copy :
    (q : ReplayRequest) (r : KafkaRecord) (answer : ProduceAnswer) (run : ReplayRun)
    → is_requested q r ≡ true
    → SentOne q r run (sent_as run (replay answer r q.into run.log))
unfolding replay produce replay_headers
sent_copy q r acked run h = rw h (refl, omega arith, omega arith)
sent_copy q r (unacked e true) run h = ((replayed_record r q.into ∷ [], refl, omega arith), refl)
sent_copy q r (unacked e false) run h = (([], sym (append-nil run.log), omega arith), refl)

send-SentOne :
    (q : ReplayRequest) (r : KafkaRecord) (answer : ProduceAnswer) (run : ReplayRun)
    → SentOne q r run (send q (r, answer) run)
unfolding send
send-SentOne q r answer run = elim (Bool-cases (is_requested q r)) [
  | inl e ↦ rw e (sent_copy q r answer run e)
  | inr e ↦ rw e (rw e (sym (append-nil run.log), omega arith, omega arith))
]

copies-append :
    (q : ReplayRequest) (r : KafkaRecord) (rs : List KafkaRecord)
    → copies q (r ∷ []) ++ copies q rs ≡ copies q (r ∷ rs)
copies-append q r rs = elim (Bool-cases (is_requested q r)) [
  | inl e ↦ rw e refl
  | inr e ↦ rw e refl
]

count_requested-first :
    (q : ReplayRequest) (r : KafkaRecord) (rs : List KafkaRecord)
    → count_requested q (r ∷ rs) ≡ count_requested q (r ∷ []) + count_requested q rs
count_requested-first q r rs = elim (Bool-cases (is_requested q r)) [
  | inl e ↦ rw e (omega arith)
  | inr e ↦ rw e (omega arith)
]

one_more_log :
    (log one rest_of_copies extra log' log'' both : List Produced)
    → log' ≡ log ++ one
    → log'' ≡ log' ++ (rest_of_copies ++ extra)
    → one ++ rest_of_copies ≡ both
    → log'' ≡ log ++ (both ++ extra)
one_more_log log one more extra log' log'' both h k j =
    k
    ∙ ap (λ l. l ++ (more ++ extra)) h
    ∙ append_assoc log one (more ++ extra)
    ∙ ap (λ l. log ++ l) (sym (append_assoc one more extra) ∙ ap (λ l. l ++ extra) j)

advanced-SentExactly :
    (q : ReplayRequest) (r : KafkaRecord) (run run1 : ReplayRun) (sent : Sent)
    → SentOne q r run (none, run1)
    → SentExactly q (advance r run1) sent
    → SentExactly q run (send_next (λ _. sent) r (none, run1))
unfolding send_next advance
advanced-SentExactly q r run run1 ((done, failure), run') one h =
    let (extra, logged, small) = h.0 in
    (
      (
        extra,
        one_more_log run.log (copies q (r ∷ [])) (copies q done) extra run1.log run'.log
            (copies q (r ∷ done)) one.0 logged (copies-append q r done),
        small,
      ),
      omega (arith, h.1, one.1, count_requested-first q r done),
      omega (arith, h.2, one.2),
    )

next-SentExactly :
    (q : ReplayRequest) (r : KafkaRecord) (run : ReplayRun) (later : ReplayRun → Sent)
    (first_sent : Option Error × ReplayRun)
    → SentOne q r run first_sent
    → ((run1 : ReplayRun) → SentExactly q run1 (later run1))
    → SentExactly q run (send_next later r first_sent)
unfolding send_next
next-SentExactly q r run later (some e, run1) one h = (
  one.0,
  omega (arith, ap (λ (p : ReplayReport). p.replayed) one.1),
  omega (
    arith,
    ap (λ (p : ReplayReport). p.replayed) one.1,
    ap (λ (p : ReplayReport). p.skipped) one.1,
  ),
)
next-SentExactly q r run later (none, run1) one h =
    advanced-SentExactly q r run run1 (later (advance r run1)) one (h (advance r run1))

-- What sending the letters of a poll leaves in the log and in the report.
pub send_all-Sends :
    (q : ReplayRequest) (letters : List Letter) (run : ReplayRun)
    → SentExactly q run (send_all q letters run)
unfolding send_all
send_all-Sends q [] run = (([], sym (append-nil run.log), refl), omega arith, omega arith)
send_all-Sends q ((r, answer) ∷ letters) run = elim (Bool-cases (is_within run r)) [
  | inl e ↦
      rw (e, send_all)
        (next-SentExactly q r run (send_all q letters) (send q (r, answer) run)
          (send-SentOne q r answer run) (send_all-Sends q letters))
  | inr e ↦ rw (e, send_all) (send_all-Sends q letters run)
]
