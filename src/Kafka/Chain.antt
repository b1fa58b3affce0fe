-- ===== src/Kafka/Chain.antt =====
-- What linking the stages of a chain does (internal/infrastructure/kafka/stage.go).
use kafka_lab.Base.{
  List, Option, [], ap, arith, get_elem?, none, refl, some, suc, zero, ℕ, ◌+◌, ◌∙◌, ◌∷◌, ◌≡◌,
}
use kafka_lab.Base.Text.{Text}
use kafka_lab.Kafka.Stage.{Stage, chain, link}

-- The topic of the stage at a position, or nothing where there is none.
abbrev pub topic_at : List Stage → ℕ → Text
topic_at stages i = elim (get_elem? stages i) [ none ↦ [] | some s ↦ s.topic ]

-- The stage at a position of a list, as the chain has it when counting starts at `position`.
abbrev pub linked_at : List Stage → ℕ → ℕ → Option Stage
linked_at stages position i = elim (get_elem? stages i) [
  | none ↦ none
  | some s ↦ some (record s { tier = position; next = topic_at stages (suc i) })
]

link-at :
    (position : ℕ) (stages : List Stage) (i : ℕ)
    → get_elem? (link position stages) i ≡ linked_at stages (position + i) i
unfolding link
link-at position [] i = refl
link-at position (s ∷ []) zero = ground arith
link-at position (s ∷ []) (suc i) = refl
link-at position (s ∷ t ∷ rest) zero = ground arith
link-at position (s ∷ t ∷ rest) (suc i) =
    let e : position + 1 + i ≡ position + suc i = omega arith in
    link-at (position + 1) (t ∷ rest) i ∙ ap (λ n. linked_at (t ∷ rest) n i) e

-- The chain has the stages that it was given, in order, with topic, group and delay kept: at every
-- position the tier is the position, and the next topic is that of the stage after it, or empty on
-- the last one. Past the end there is nothing.
pub chain-at : (stages : List Stage) (i : ℕ) → get_elem? (chain stages) i ≡ linked_at stages i i
unfolding chain
chain-at stages i =
    let e : 0 + i ≡ i = omega arith in link-at 0 stages i ∙ ap (λ n. linked_at stages n i) e
