-- ===== src/Kafka/Replay/Done.antt =====
-- Which letters of a poll a replay is done with (internal/infrastructure/kafka/replay.go).
use mathlib.Core.Path.{subst}
use kafka_lab.Base.{
  All, All-imp, Bool, Bool-cases, List, Option, [], ap, arith, false, inl, inr, keep, none, refl,
  some, sym, true, ◌++◌, ◌∙◌, ◌∷◌, ◌≡◌, ◌≢◌,
}
use kafka_lab.Base.Errors.{Error}
use kafka_lab.Kafka.Stage.{KafkaRecord}
use kafka_lab.Kafka.Detours.{Produced, replay}
use kafka_lab.Kafka.Replay.{
  Letter, ReplayRequest, ReplayRun, Sent, advance, is_requested, is_within, send, send_all,
  send_next, sent_as,
}
use kafka_lab.Kafka.Replay.Sending.{SentExactly, send_all-Sends}
use kafka_lab.Kafka.Replay.InRange.{
  AreAscending, ComesBehind, advance-in_range, in_range, is_within_lem, letters_of,
}

-- What is left of the letters in range: none without a failure, and with one at least the letter that
-- failed.
abbrev pub IsRest : Option Error → List KafkaRecord → Type 0
IsRest none rest = rest ≡ []
IsRest (some e) rest = rest ≢ []

-- The letters that are done are the first of those in range.
abbrev pub DoneOf :
    (KafkaRecord → Bool) → List KafkaRecord → List KafkaRecord × Option Error → Type 0
DoneOf f rs (done, failure) =
    (rest : List KafkaRecord) × (keep f rs ≡ done ++ rest) × IsRest failure rest

pub keep_agree :
    (f g : KafkaRecord → Bool) (rs : List KafkaRecord)
    → All (λ s. f s ≡ g s) rs
    → keep f rs ≡ keep g rs
keep_agree f g [] h = refl
keep_agree f g (r ∷ rs) h = ground (arith, h.0, keep_agree f g rs h.1)

pub keep_first :
    (f : KafkaRecord → Bool) (r : KafkaRecord) (rs : List KafkaRecord)
    → f r ≡ true
    → keep f (r ∷ rs) ≡ r ∷ keep f rs
keep_first f r rs e = rw e refl

pub keep_rest :
    (f : KafkaRecord → Bool) (r : KafkaRecord) (rs : List KafkaRecord)
    → f r ≡ false
    → keep f (r ∷ rs) ≡ keep f rs
keep_rest f r rs e = rw e refl

sent_as-remaining :
    (run : ReplayRun) (answered : Option Error × List Produced)
    → (sent_as run answered).1.remaining ≡ run.remaining
sent_as-remaining run (none, log) = refl
sent_as-remaining run (some e, log) = refl

send-remaining :
    (q : ReplayRequest) (letter : Letter) (run : ReplayRun)
    → (send q letter run).1.remaining ≡ run.remaining
unfolding send
send-remaining q (r, answer) run = elim (Bool-cases (is_requested q r)) [
  | inl e ↦ rw e (sent_as-remaining run (replay answer r q.into run.log))
  | inr e ↦ rw e refl
]

-- After a letter, the range is the same for those behind it.
advanced :
    (r s : KafkaRecord) (run run1 : ReplayRun)
    → run1.remaining ≡ run.remaining
    → ComesBehind r s
    → in_range (advance r run1).remaining s ≡ in_range run.remaining s
advanced r s run run1 same behind = advance-in_range r s run1 behind ∙ ap (λ m. in_range m s) same

first-DoneOf :
    (f : KafkaRecord → Bool) (r : KafkaRecord) (rs : List KafkaRecord)
    (sent : List KafkaRecord × Option Error)
    → f r ≡ true
    → DoneOf f rs sent
    → DoneOf f (r ∷ rs) (r ∷ sent.0, sent.1)
first-DoneOf f r rs (done, failure) e (rest, kept, left) =
    (rest, keep_first f r rs e ∙ ap (λ l. r ∷ l) kept, left)

failed-DoneOf :
    (f : KafkaRecord → Bool) (r : KafkaRecord) (rs : List KafkaRecord) (e : Error)
    → f r ≡ true
    → DoneOf f (r ∷ rs) ([], some e)
failed-DoneOf f r rs e h = (r ∷ keep f rs, keep_first f r rs h, λ q. cc)

agree-DoneOf :
    (f g : KafkaRecord → Bool) (rs : List KafkaRecord) (sent : List KafkaRecord × Option Error)
    → All (λ s. f s ≡ g s) rs
    → DoneOf f rs sent
    → DoneOf g rs sent
agree-DoneOf f g rs (done, failure) same (rest, kept, left) =
    (rest, sym (keep_agree f g rs same) ∙ kept, left)

next-DoneOf :
    (r : KafkaRecord) (rs : List KafkaRecord) (run : ReplayRun) (later : ReplayRun → Sent)
    (first_sent : Option Error × ReplayRun)
    → first_sent.1.remaining ≡ run.remaining
    → in_range run.remaining r ≡ true
    → All (ComesBehind r) rs
    → ((run1 : ReplayRun) → DoneOf (in_range run1.remaining) rs (later run1).0)
    → DoneOf (in_range run.remaining) (r ∷ rs) (send_next later r first_sent).0
unfolding send_next
next-DoneOf r rs run later (some e, run1) same here behind k =
    failed-DoneOf (in_range run.remaining) r rs e here
next-DoneOf r rs run later (none, run1) same here behind k =
    first-DoneOf (in_range run.remaining) r rs (later (advance r run1)).0 here (
      agree-DoneOf (in_range (advance r run1).remaining) (in_range run.remaining) rs
        (later (advance r run1)).0 (All-imp _ _ rs (λ s b. advanced r s run run1 same b) behind)
        (k (advance r run1)))

skipped-DoneOf :
    (f : KafkaRecord → Bool) (r : KafkaRecord) (rs : List KafkaRecord)
    (sent : List KafkaRecord × Option Error)
    → f r ≡ false
    → DoneOf f rs sent
    → DoneOf f (r ∷ rs) sent
skipped-DoneOf f r rs (done, failure) e (rest, kept, left) = (rest, keep_rest f r rs e ∙ kept, left)

send_all-within :
    (q : ReplayRequest) (letter : Letter) (letters : List Letter) (run : ReplayRun)
    → is_within run letter.0 ≡ true
    → send_all q (letter ∷ letters) run
      ≡ send_next (send_all q letters) letter.0 (send q letter run)
unfolding send_all
send_all-within q letter letters run e = rw (e, send_all) refl

send_all-beyond :
    (q : ReplayRequest) (letter : Letter) (letters : List Letter) (run : ReplayRun)
    → is_within run letter.0 ≡ false
    → send_all q (letter ∷ letters) run ≡ send_all q letters run
unfolding send_all
send_all-beyond q letter letters run e = rw (e, send_all) refl

pub send_all-DoneOf :
    (q : ReplayRequest) (letters : List Letter) (run : ReplayRun)
    → AreAscending (letters_of letters)
    → DoneOf (in_range run.remaining) (letters_of letters) (send_all q letters run).0
unfolding send_all
send_all-DoneOf q [] run order = ([], refl, refl)
send_all-DoneOf q ((r, answer) ∷ letters) run order = elim (Bool-cases (is_within run r)) [
  | inl e ↦
      subst
        (λ (sent : Sent).
          DoneOf (in_range run.remaining) (letters_of ((r, answer) ∷ letters)) sent.0)
        (sym (send_all-within q (r, answer) letters run e))
        (next-DoneOf r (letters_of letters) run (send_all q letters) (send q (r, answer) run)
          (send-remaining q (r, answer) run) (sym (is_within_lem run r) ∙ e) order.0
          (λ run1. send_all-DoneOf q letters run1 order.1))
  | inr e ↦
      subst
        (λ (sent : Sent).
          DoneOf (in_range run.remaining) (letters_of ((r, answer) ∷ letters)) sent.0)
        (sym (send_all-beyond q (r, answer) letters run e))
        (skipped-DoneOf (in_range run.remaining) r (letters_of letters) (send_all q letters run).0
          (sym (is_within_lem run r) ∙ e) (send_all-DoneOf q letters run order.1))
]

next-in_range :
    (r s : KafkaRecord) (run : ReplayRun) (later : ReplayRun → Sent)
    (first_sent : Option Error × ReplayRun)
    → first_sent.1.remaining ≡ run.remaining
    → ComesBehind r s
    → ((run1 : ReplayRun) → in_range (later run1).1.remaining s ≡ in_range run1.remaining s)
    → in_range (send_next later r first_sent).1.remaining s ≡ in_range run.remaining s
unfolding send_next
next-in_range r s run later (some e, run1) same behind k = ap (λ m. in_range m s) same
next-in_range r s run later (none, run1) same behind k =
    k (advance r run1) ∙ advanced r s run run1 same behind

-- What is in range behind all letters of a poll stays so.
pub send_all-in_range :
    (q : ReplayRequest) (letters : List Letter) (run : ReplayRun) (s : KafkaRecord)
    → All (λ r. ComesBehind r s) (letters_of letters)
    → in_range (send_all q letters run).1.remaining s ≡ in_range run.remaining s
unfolding send_all
send_all-in_range q [] run s behind = refl
send_all-in_range q ((r, answer) ∷ letters) run s behind = elim (Bool-cases (is_within run r)) [
  | inl e ↦
      rw (e, send_all)
        (next-in_range r s run (send_all q letters) (send q (r, answer) run)
          (send-remaining q (r, answer) run) behind.0
          (λ run1. send_all-in_range q letters run1 s behind.1))
  | inr e ↦ rw (e, send_all) (send_all-in_range q letters run s behind.1)
]

-- A poll returns letters in the order of their offsets in each partition. However the brokers answer:
-- the letters that the replay is done with are the first of those before the end that was listed for
-- their partition, and all of them without a failure. What it stores is a copy of each letter of the
-- requested class among them, in their order, and after a failure at most one copy more; a copy has
-- the letter's key and bytes, the requested topic, and the letter's headers without those of its
-- detours. The report counts those letters as replayed, and all it is done with as replayed or
-- skipped.
pub send_all-SentExactly :
    (q : ReplayRequest) (letters : List Letter) (run : ReplayRun)
    → AreAscending (letters_of letters)
    → DoneOf (in_range run.remaining) (letters_of letters) (send_all q letters run).0
      × SentExactly q run (send_all q letters run)
send_all-SentExactly q letters run order =
    (send_all-DoneOf q letters run order, send_all-Sends q letters run)
