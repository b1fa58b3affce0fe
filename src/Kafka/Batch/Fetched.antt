-- ===== src/Kafka/Batch/Fetched.antt =====
-- What a batch does with everything that was fetched (internal/infrastructure/kafka/consumer.go).
use kafka_lab.Base.{
  All, All-append, All-imp, List, Option-cases, [], ap, inl, inr, refl, sym, ◌++◌, ◌∙◌, ◌∷◌, ◌≡◌,
  ◌⊎◌,
}
use mathlib.Core.Path.{subst}
use mathlib.Core.List.{append-nil}
use kafka_lab.Base.Time.{Time}
use kafka_lab.Kafka.Stage.{KafkaRecord}
use kafka_lab.Kafka.Routing.{Consumer, World}
use kafka_lab.Kafka.Routing.Growth.{Grows, Grows-refl, Grows-trans}
use kafka_lab.Kafka.Batch.{Item, Outcome, handle_next, handle_partitions}
use kafka_lab.Kafka.Batch.Prefix.{AllHonest, Grows-IsKept, IsKept, partition-Goes, records_of}
use kafka_lab.Kafka.Batch.Order.{
  All-back, All-front, AllMissed, IsFetch, Misses, records_of-append, rest-Misses, still_missed,
}

-- What the next partition adds.
abbrev Adds : Consumer → World → List Item → Outcome → Outcome × World → Type 0
Adds c w items out (out', w') =
    Grows w w'
    × All (IsKept c w') out'.handled
    × ((taken : List Item) × (rest : List Item) × (records_of items
          ≡ records_of taken ++ records_of rest)
        × (out'.handled ≡ out.handled ++ records_of taken))

next-Adds :
    (c : Consumer) (now : Time) (items : List Item) (out : Outcome) (w : World)
    → AllHonest items
    → All (IsKept c w) out.handled
    → Adds c w items out (handle_next c now items out w)
unfolding handle_next
next-Adds c now items out w honest kept = elim (Option-cases out.failure) [
  | inl fine ↦
      rw (fine, handle_next)
        (let (g, kept', (taken, rest, e, handled, stopped)) =
            partition-Goes c now items out w honest kept in
          (g, kept', (taken, rest, ap records_of e ∙ records_of-append taken rest, handled)))
  | inr (e, broken) ↦
      rw (broken, handle_next) (Grows-refl w, kept, ([], items, refl, sym (append-nil out.handled)))
]

-- A record that neither the batch so far nor the partitions that come commit is not committed.
partitions-Misses :
    (c : Consumer) (now : Time) (ps : List (List Item)) (out : Outcome) (w : World)
    (r : KafkaRecord)
    → All AllHonest ps
    → All (IsKept c w) out.handled
    → Misses out.handled r
    → All (λ (others : List Item). Misses (records_of others) r) ps
    → Misses (handle_partitions c now ps out w).0.handled r
unfolding handle_partitions
partitions-Misses c now [] out w r honest kept missed apart = missed
partitions-Misses c now (items ∷ ps) out w r honest kept missed apart =
    let (out', w') = handle_next c now items out w in
    let (g, kept', (taken, rest, e, handled)) = next-Adds c now items out w honest.0 kept in
    partitions-Misses c now ps out' w' r honest.1 kept'
      (subst (λ hs. Misses hs r) (sym handled)
        (All-append _ out.handled (records_of taken) missed (
          All-front _ (λ s. Misses [] s) (records_of taken) (records_of rest)
            (subst (λ rs. Misses rs r) e apart.0))))
      apart.1

-- A record that is not committed, or whose work is safe.
abbrev pub Dealt : Consumer → World → List KafkaRecord → KafkaRecord → Type 0
Dealt c w hs r = Misses hs r ⊎ IsKept c w r

abbrev pub AllDealt : Consumer → List (List Item) → Outcome × World → Type 0
AllDealt c ps (out, w) =
    All (λ (items : List Item). All (Dealt c w out.handled) (records_of items)) ps

pub partitions-AllDealt :
    (c : Consumer) (now : Time) (ps : List (List Item)) (out : Outcome) (w : World)
    → IsFetch ps
    → All AllHonest ps
    → All (IsKept c w) out.handled
    → AllMissed out.handled ps
    → Grows w (handle_partitions c now ps out w).1
      × AllDealt c ps (handle_partitions c now ps out w)
unfolding handle_partitions
partitions-AllDealt c now [] out w fetch honest kept missed = (Grows-refl w, tt)
partitions-AllDealt c now (items ∷ ps) out w fetch honest kept missed =
    let (out', w') = handle_next c now items out w in
    let (g, kept', (taken, rest, e, handled)) = next-Adds c now items out w honest.0 kept in
    let final = handle_partitions c now ps out' w' in
    let (g', dealt) = partitions-AllDealt c now ps out' w' fetch.2 honest.1 kept' (
      subst (λ hs. AllMissed hs ps) (sym handled)
        (still_missed items (records_of taken) (records_of rest) out.handled ps e missed.1
          fetch.1)) in
    let early : All (Dealt c final.1 final.0.handled) (records_of taken) =
      All-imp _ _ (records_of taken) (λ r k. inr (Grows-IsKept c w' final.1 r g' k))
        (All-back (IsKept c w') (IsKept c w') out.handled (records_of taken)
          (subst (λ hs. All (IsKept c w') hs) handled kept')) in
    let late : All (Dealt c final.1 final.0.handled) (records_of rest) =
      All-imp _ _ (records_of rest)
        (λ r all. inl (
          partitions-Misses c now ps out' w' r honest.1 kept'
            (subst (λ hs. Misses hs r) (sym handled)
              (All-append _ out.handled (records_of taken) all.0 all.1.0))
            all.1.1))
        (rest-Misses items taken rest out.handled ps e fetch.0 fetch.1 missed.0) in
    (
      Grows-trans w w' final.1 g g',
      (
        subst (λ rs. All (Dealt c final.1 final.0.handled) rs) (sym e)
            (All-append _ (records_of taken) (records_of rest) early late),
        dealt,
      ),
    )
