-- ===== src/Kafka/Batch/Order.antt =====
-- Fetched records in their order, and what their commits leave (internal/infrastructure/kafka/consumer.go).
use kafka_lab.Base.{
  All, All-append, All-imp, List, [], ap, arith, false, refl, ◌++◌, ◌+◌, ◌∷◌, ◌≡◌, ◌≢◌, ◌≤◌,
}
use mathlib.Core.Path.{subst}
use kafka_lab.Kafka.Stage.{KafkaRecord}
use kafka_lab.Kafka.Commits.{covers}
use kafka_lab.Kafka.Batch.{Item}
use kafka_lab.Kafka.Batch.Prefix.{records_of}

pub All-always : {A : Type 0} (P : A → Type 0) (xs : List A) → ((x : A) → P x) → All P xs
All-always P [] f = tt
All-always P (x ∷ xs) f = (f x, All-always P xs f)

module _ {A : Type 0} (P Q : A → Type 0) where
  pub All-zip : (xs : List A) → All P xs → All Q xs → All (λ x. P x × Q x) xs
  All-zip [] h k = tt
  All-zip (x ∷ xs) h k = ((h.0, k.0), All-zip xs h.1 k.1)

  pub All-front : (xs ys : List A) → All P (xs ++ ys) → All P xs
  All-front [] ys h = tt
  All-front (x ∷ xs) ys h = (h.0, All-front xs ys h.1)

  pub All-back : (xs ys : List A) → All P (xs ++ ys) → All P ys
  All-back [] ys h = h
  All-back (x ∷ xs) ys h = All-back xs ys h.1

-- The records of one partition, in the order of their offsets.
abbrev pub AreInOrder : List KafkaRecord → Type 0
AreInOrder [] = Unit {0}
AreInOrder (r ∷ rs) =
    All (λ (s : KafkaRecord). (s.partition ≡ r.partition) × (r.offset + 1 ≤ s.offset)) rs
    × AreInOrder rs

abbrev pub AreApart : List KafkaRecord → List KafkaRecord → Type 0
AreApart rs others =
    All (λ (r : KafkaRecord). All (λ (s : KafkaRecord). s.partition ≢ r.partition) others) rs

-- What a client fetches: each partition once, its records in the order of their offsets.
abbrev pub IsFetch : List (List Item) → Type 0
IsFetch [] = Unit {0}
IsFetch (items ∷ rest) =
    AreInOrder (records_of items)
    × All
        (λ (others : List Item).
          AreApart (records_of items) (records_of others)
          × AreApart (records_of others) (records_of items))
        rest
    × IsFetch rest

-- The commit of these records does not commit the other.
abbrev pub Misses : List KafkaRecord → KafkaRecord → Type 0
Misses hs r = All (λ (s : KafkaRecord). covers r s ≡ false) hs

AreApart-Misses : (rs others : List KafkaRecord) → AreApart rs others → All (Misses others) rs
AreApart-Misses rs others h =
    All-imp _ _ rs (λ r apart. All-imp _ _ others (λ s different. ground arith) apart) h

AreInOrder-Misses :
    (front back : List KafkaRecord) → AreInOrder (front ++ back) → All (Misses front) back
AreInOrder-Misses [] back h = All-always (Misses []) back (λ r. tt)
AreInOrder-Misses (r ∷ front) back h =
    All-imp _ _ back (λ s both. (ground (arith, both.0.1), both.1))
      (All-zip (λ (s : KafkaRecord). (s.partition ≡ r.partition) × (r.offset + 1 ≤ s.offset))
        (Misses front) back
        (All-back (λ (s : KafkaRecord). (s.partition ≡ r.partition) × (r.offset + 1 ≤ s.offset))
          (Misses front) front back h.0)
        (AreInOrder-Misses front back h.1))

pub records_of-append :
    (taken rest : List Item) → records_of (taken ++ rest) ≡ records_of taken ++ records_of rest
records_of-append [] rest = refl
records_of-append (item ∷ taken) rest =
    ap (λ (l : List KafkaRecord). item.0 ∷ l) (records_of-append taken rest)

apart_each :
    (items : List Item) (ps : List (List Item))
    → All
        (λ (others : List Item).
          AreApart (records_of items) (records_of others)
          × AreApart (records_of others) (records_of items))
        ps
    → All (λ r. All (λ (others : List Item). Misses (records_of others) r) ps) (records_of items)
apart_each items [] h = All-always (λ r. Unit {0}) (records_of items) (λ r. tt)
apart_each items (others ∷ ps) h =
    All-zip (Misses (records_of others))
      (λ r. All (λ (others : List Item). Misses (records_of others) r) ps) (records_of items)
      (AreApart-Misses (records_of items) (records_of others) h.0.0) (apart_each items ps h.1)

-- Before a partition, the batch so far commits nothing of what is to come.
abbrev pub AllMissed : List KafkaRecord → List (List Item) → Type 0
AllMissed hs ps = All (λ (items : List Item). All (Misses hs) (records_of items)) ps

pub still_missed :
    (items : List Item) (front back hs : List KafkaRecord) (ps : List (List Item))
    → records_of items ≡ front ++ back
    → AllMissed hs ps
    → All
        (λ (others : List Item).
          AreApart (records_of items) (records_of others)
          × AreApart (records_of others) (records_of items))
        ps
    → AllMissed (hs ++ front) ps
still_missed items front back hs [] e missed apart = tt
still_missed items front back hs (others ∷ ps) e missed apart = (
  All-imp _ _ (records_of others)
      (λ r both.
        All-append _ hs front both.0
          (All-front _ (λ s. Misses [] s) front back (subst (λ rs. Misses rs r) e both.1)))
      (All-zip (Misses hs) (Misses (records_of items)) (records_of others) missed.0
        (AreApart-Misses (records_of others) (records_of items) apart.0.1)),
  still_missed items front back hs ps e missed.1 apart.1,
)

-- What the records behind the first ones of a partition are not committed by.
pub rest-Misses :
    (items taken rest : List Item) (hs : List KafkaRecord) (ps : List (List Item))
    → records_of items ≡ records_of taken ++ records_of rest
    → AreInOrder (records_of items)
    → All
        (λ (others : List Item).
          AreApart (records_of items) (records_of others)
          × AreApart (records_of others) (records_of items))
        ps
    → All (Misses hs) (records_of items)
    → All
        (λ r.
          Misses hs r
          × (Misses (records_of taken) r
              × All (λ (others : List Item). Misses (records_of others) r) ps))
        (records_of rest)
rest-Misses items taken rest hs ps e order apart missed =
    All-zip (Misses hs)
      (λ r.
        Misses (records_of taken) r × All (λ (others : List Item). Misses (records_of others) r) ps)
      (records_of rest)
      (All-back (Misses hs) (Misses []) (records_of taken) (records_of rest)
        (subst (All (Misses hs)) e missed))
      (All-zip (Misses (records_of taken))
        (λ r. All (λ (others : List Item). Misses (records_of others) r) ps) (records_of rest)
        (AreInOrder-Misses (records_of taken) (records_of rest) (subst AreInOrder e order))
        (All-back (λ r. All (λ (others : List Item). Misses (records_of others) r) ps) (Misses [])
          (records_of taken) (records_of rest)
          (subst (All (λ r. All (λ (others : List Item). Misses (records_of others) r) ps)) e
            (apart_each items ps apart))))
