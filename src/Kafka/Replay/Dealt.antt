-- ===== src/Kafka/Replay/Dealt.antt =====
-- When a letter is dealt with (internal/infrastructure/kafka/replay.go).
use mathlib.Core.Path.{subst}
use kafka_lab.Base.{
  All, All-imp, Any, Any-append_left, Any-append_right, Bool-cases, List, [], false, inl, inr, refl,
  sym, true, ◌++◌, ◌∷◌, ◌≡◌, ◌⊎◌,
}
use kafka_lab.Kafka.Stage.{KafkaRecord}
use kafka_lab.Kafka.Detours.{Produced}
use kafka_lab.Kafka.Replay.{ReplayRequest, ReplayRun, Sent, is_requested}
use kafka_lab.Kafka.Replay.Sending.{SentExactly, copies, copy_of}

-- A letter is of another class, or a copy of it is stored.
abbrev pub IsDealt : ReplayRequest → List Produced → KafkaRecord → Type 0
IsDealt q log r = (is_requested q r ≡ false) ⊎ Any (λ p. p ≡ copy_of q r) log

abbrev pub Extends : List Produced → List Produced → Type 0
Extends log log' = (extra : List Produced) × (log' ≡ log ++ extra)

pub IsDealt-behind :
    (q : ReplayRequest) (front log : List Produced) (r : KafkaRecord)
    → IsDealt q log r
    → IsDealt q (front ++ log) r
IsDealt-behind q front log r (inl other) = inl other
IsDealt-behind q front log r (inr stored) = inr (Any-append_right _ front log stored)

pub IsDealt-extends :
    (q : ReplayRequest) (log log' : List Produced) (r : KafkaRecord)
    → Extends log log'
    → IsDealt q log r
    → IsDealt q log' r
IsDealt-extends q log log' r (extra, e) (inl other) = inl other
IsDealt-extends q log log' r (extra, e) (inr stored) =
    inr (subst (λ l. Any (λ p. p ≡ copy_of q r) l) (sym e) (Any-append_left _ log extra stored))

pub copies_first :
    (q : ReplayRequest) (r : KafkaRecord) (rs : List KafkaRecord)
    → is_requested q r ≡ true
    → copies q (r ∷ rs) ≡ copy_of q r ∷ copies q rs
copies_first q r rs e = rw e refl

pub copies_rest :
    (q : ReplayRequest) (r : KafkaRecord) (rs : List KafkaRecord)
    → is_requested q r ≡ false
    → copies q (r ∷ rs) ≡ copies q rs
copies_rest q r rs e = rw e refl

copies-IsDealt : (q : ReplayRequest) (rs : List KafkaRecord) → All (IsDealt q (copies q rs)) rs
copies-IsDealt q [] = tt
copies-IsDealt q (r ∷ rs) = elim (Bool-cases (is_requested q r)) [
  | inl e ↦
      subst (λ log. All (IsDealt q log) (r ∷ rs)) (sym (copies_first q r rs e))
        (
          inr (inl refl),
          All-imp _ _ rs (IsDealt-behind q (copy_of q r ∷ []) (copies q rs)) (copies-IsDealt q rs),
        )
  | inr e ↦
      subst (λ log. All (IsDealt q log) (r ∷ rs)) (sym (copies_rest q r rs e))
        (inl e, copies-IsDealt q rs)
]

-- The log has only grown, and what was committed is dealt with.
abbrev pub IsReplaySafe : ReplayRequest → ReplayRun → List KafkaRecord → ReplayRun → Type 0
IsReplaySafe q run took run' = Extends run.log run'.log × All (IsDealt q run'.log) took

pub SentExactly-IsReplaySafe :
    (q : ReplayRequest) (run : ReplayRun) (sent : Sent)
    → SentExactly q run sent
    → IsReplaySafe q run sent.0.0 sent.1
SentExactly-IsReplaySafe q run ((done, failure), run') h =
    let (extra, logged, small) = h.0 in
    (
      (copies q done ++ extra, logged),
      All-imp (IsDealt q (copies q done)) _ done
          (λ r dealt.
            subst (λ log. IsDealt q log r) (sym logged)
              (IsDealt-behind q run.log _ r
                (IsDealt-extends q (copies q done) _ r (extra, refl) dealt)))
          (copies-IsDealt q done),
    )
