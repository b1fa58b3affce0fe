-- ===== src/Kafka/Publisher/Reading.antt =====
-- What the publisher has stored (internal/infrastructure/kafka/publisher.go).
use mathlib.Core.Path.{subst}
use kafka_lab.Base.{
  All, Any, Any-append_left, Any-append_right, List, Option, [], ap, false, inl, inr, none, refl,
  some, true, ℕ, ◌+◌, ◌∙◌, ◌∷◌, ◌≡◌,
}
use kafka_lab.Base.Errors.{>>=-eq-ok, Error, Result, err, ok, publish_failed}
use kafka_lab.Outboxwire.{Json}
use kafka_lab.Base.Text.{Text}
use kafka_lab.Database.{OutboxRow}
use kafka_lab.Kafka.Detours.{ProduceAnswer, Produced, acked, produce, said_with, unacked}
use kafka_lab.Kafka.Publisher.{
  Encode, first_err, message, messages, produce_sync, publish, publish_messages,
}

-- The topic has a record that is the row's message.
abbrev pub IsOnTopic : Json → Encode → Text → List Produced → OutboxRow → Type 0
IsOnTopic json encode topic log row = Any (λ p. message json encode topic row ≡ ok p) log

abbrev pub IsStored : List Produced → Produced → Type 0
IsStored log p = Any (λ q. p ≡ q) log

produce-keeps :
    (P : Produced → Type 0) (a : ProduceAnswer) (p : Produced) (log : List Produced)
    → Any P log
    → Any P (produce a p log).1
unfolding produce
produce-keeps P acked p log h = Any-append_left P log (p ∷ []) h
produce-keeps P (unacked e true) p log h = Any-append_left P log (p ∷ []) h
produce-keeps P (unacked e false) p log h = h

produce-IsStored :
    (a : ProduceAnswer) (p : Produced) (log : List Produced)
    → (produce a p log).0 ≡ none
    → IsStored (produce a p log).1 p
unfolding produce
produce-IsStored acked p log h = Any-append_right (λ q. p ≡ q) log (p ∷ []) (inl refl)
produce-IsStored (unacked e stored) p log h = cc

pub produce_sync-keeps :
    (P : Produced → Type 0) (answers : ℕ → ProduceAnswer) (i : ℕ) (ps log : List Produced)
    → Any P log
    → Any P (produce_sync answers i ps log).1
unfolding produce_sync
produce_sync-keeps P answers i [] log h = h
produce_sync-keeps P answers i (p ∷ ps) log h =
    produce_sync-keeps P answers (i + 1) ps (produce (answers i) p log).1
      (produce-keeps P (answers i) p log h)

first_err-none : (a b : Option Error) → first_err a b ≡ none → (a ≡ none) × (b ≡ none)
first_err-none none b h = (refl, h)
first_err-none (some e) b h = cc

pub produce_sync-IsStored :
    (answers : ℕ → ProduceAnswer) (i : ℕ) (ps log : List Produced)
    → (produce_sync answers i ps log).0 ≡ none
    → All (IsStored (produce_sync answers i ps log).1) ps
unfolding produce_sync
produce_sync-IsStored answers i [] log h = tt
produce_sync-IsStored answers i (p ∷ ps) log h =
    let sent = produce (answers i) p log in
    let (now, later) = first_err-none sent.0 (produce_sync answers (i + 1) ps sent.1).0 h in
    (
      produce_sync-keeps (λ q. p ≡ q) answers (i + 1) ps sent.1
          (produce-IsStored (answers i) p log now),
      produce_sync-IsStored answers (i + 1) ps sent.1 later,
    )

module _ (json : Json) (encode : Encode) (topic : Text) where
  bind-Any :
      (row : OutboxRow) (m : Produced) (log : List Produced)
      → message json encode topic row ≡ ok m
      → IsStored log m
      → IsOnTopic json encode topic log row
  bind-Any row m [] e h = h
  bind-Any row m (q ∷ log) e (inl h) = inl (e ∙ ap ok h)
  bind-Any row m (q ∷ log) e (inr h) = inr (bind-Any row m log e h)

  -- Where every message of a batch is stored, every row of it is on the topic.
  messages-IsOnTopic :
      (rows : List OutboxRow) (ms log : List Produced)
      → messages json encode topic rows ≡ ok ms
      → All (IsStored log) ms
      → All (IsOnTopic json encode topic log) rows
  unfolding messages
  messages-IsOnTopic [] ms log e h = tt
  messages-IsOnTopic (row ∷ rows) ms log e h =
      let (m, em, e') = >>=-eq-ok (message json encode topic row) _ e in
      let (ms', ems, e'') = >>=-eq-ok (messages json encode topic rows) _ e' in
      let same : ms ≡ m ∷ ms' = cc in
      let stored : All (IsStored log) (m ∷ ms') = subst (All (IsStored log)) same h in
      (bind-Any row m log em stored.0, messages-IsOnTopic rows ms' log ems stored.1)

  said_with-IsOnTopic :
      (rows : List OutboxRow) (sent : Option Error × List Produced)
      → (said_with (publish_failed ∷ []) sent).0 ≡ none
      → (sent.0 ≡ none → All (IsOnTopic json encode topic sent.1) rows)
      → All (IsOnTopic json encode topic (said_with (publish_failed ∷ []) sent).1) rows
  said_with-IsOnTopic rows (none, log) h f = f refl
  said_with-IsOnTopic rows (some e, log) h f = cc

  publish_messages-IsOnTopic :
      (answers : ℕ → ProduceAnswer) (rows : List OutboxRow) (ms : Result (List Produced))
      (log : List Produced)
      → messages json encode topic rows ≡ ms
      → (publish_messages answers ms log).0 ≡ none
      → All (IsOnTopic json encode topic (publish_messages answers ms log).1) rows
  publish_messages-IsOnTopic answers rows (err e) log q h = cc
  publish_messages-IsOnTopic answers rows (ok ms) log q h =
      said_with-IsOnTopic rows (produce_sync answers 0 ms log) h (λ e.
        messages-IsOnTopic rows ms (produce_sync answers 0 ms log).1 q
          (produce_sync-IsStored answers 0 ms log e))

  -- What `publish` reports as published is on the topic.
  pub publish-IsOnTopic :
      (answers : ℕ → ProduceAnswer) (rows : List OutboxRow) (log : List Produced)
      → (publish json encode topic answers rows log).0 ≡ none
      → All (IsOnTopic json encode topic (publish json encode topic answers rows log).1) rows
  unfolding publish
  publish-IsOnTopic answers [] log h = tt
  publish-IsOnTopic answers (row ∷ rows) log h =
      publish_messages-IsOnTopic answers (row ∷ rows) (messages json encode topic (row ∷ rows)) log
        refl h

  said_with-keeps :
      (P : Produced → Type 0) (sent : Option Error × List Produced)
      → Any P sent.1
      → Any P (said_with (publish_failed ∷ []) sent).1
  said_with-keeps P (none, log) h = h
  said_with-keeps P (some e, log) h = h

  publish_messages-keeps :
      (P : Produced → Type 0) (answers : ℕ → ProduceAnswer) (ms : Result (List Produced))
      (log : List Produced)
      → Any P log
      → Any P (publish_messages answers ms log).1
  publish_messages-keeps P answers (err e) log h = h
  publish_messages-keeps P answers (ok ms) log h =
      said_with-keeps P (produce_sync answers 0 ms log) (produce_sync-keeps P answers 0 ms log h)

  pub publish-keeps :
      (P : Produced → Type 0) (answers : ℕ → ProduceAnswer) (rows : List OutboxRow)
      (log : List Produced)
      → Any P log
      → Any P (publish json encode topic answers rows log).1
  unfolding publish
  publish-keeps P answers [] log h = h
  publish-keeps P answers (row ∷ rows) log h =
      publish_messages-keeps P answers (messages json encode topic (row ∷ rows)) log h
