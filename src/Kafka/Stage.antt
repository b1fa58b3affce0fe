-- ===== src/Kafka/Stage.antt =====
-- internal/infrastructure/kafka/stage.go and chain.go: records, stages and the retry chain.
use kafka_lab.Base.{Bool, List, [], any, if◌then◌else◌, ℕ, ◌+◌, ◌∷◌}
use kafka_lab.Base.Int.{leb_ℤ, ltb_ℤ, pos}
use kafka_lab.Base.Text.{Text, codes, text_eq}
use kafka_lab.Base.Time.{Duration, Time, minutes, seconds, time_add, time_sub}
use kafka_lab.Base.Errors.{Result, ok, require, unknown_class, ◌>>◌}

pub record Header : Type 0 where
  pub key : Text
  pub value : Text

-- What the code reads and writes of franz-go's record; partitions and offsets of fetched records
-- are not negative.
pub record KafkaRecord : Type 0 where
  pub topic : Text
  pub partition : ℕ
  pub offset : ℕ
  pub key : Text
  pub value : Text
  pub headers : List Header
  pub timestamp : Time

pub record Stage : Type 0 where
  pub topic : Text
  pub group : Text
  pub tier : ℕ
  pub delay : Duration
  pub next : Text

-- The loop of `Chain`, from a position on.
unfoldable pub link : ℕ → List Stage → List Stage
link position [] = []
link position (s ∷ []) = record s { tier = position; next = [] } ∷ []
link position (s ∷ t ∷ rest) =
    record s { tier = position; next = t.topic } ∷ link (position + 1) (t ∷ rest)

unfoldable pub chain : List Stage → List Stage
unfolding link
chain stages = link 0 stages

abbrev pub retry_tier : Text → Duration → Stage
retry_tier topic delay = record { topic = topic; group = topic; tier = 0; delay = delay; next = [] }

abbrev pub retry_tiers : List Stage
retry_tiers =
    retry_tier (codes "payments-consumer.retry.5s") (seconds 5)
    ∷ retry_tier (codes "payments-consumer.retry.1m") (minutes 1)
    ∷ retry_tier (codes "payments-consumer.retry.10m") (minutes 10)
    ∷ []

unfoldable pub payments_chain : Text → Text → List Stage
unfolding chain
payments_chain topic group =
    chain
      (record { topic = topic; group = group; tier = 0; delay = pos 0; next = [] } ∷ retry_tiers)

unfoldable pub first_retry_tier : Text
first_retry_tier = elim retry_tiers [ [] ↦ [] | s ∷ _ ↦ s.topic ]

unfoldable pub is_retry_tier : Text → Bool
is_retry_tier topic = any (λ (tier : Stage). text_eq tier.topic topic) retry_tiers

-- `max(d, 0)`
abbrev at_least_zero : Duration → Duration
at_least_zero d = if ltb_ℤ d (pos 0) then pos 0 else d

-- `Stage.untilDue`
unfoldable pub until_due : Stage → KafkaRecord → Time → Duration
unfolding time_add time_sub
until_due s r now =
    if leb_ℤ s.delay (pos 0)
    then pos 0
    else at_least_zero (time_sub (time_add r.timestamp s.delay) now)

-- `Class`, a string with three values that something is archived under.
abbrev pub Class : Type 0
Class = Text

abbrev pub class_undecodable : Class
class_undecodable = codes "undecodable"

abbrev pub class_refused : Class
class_refused = codes "refused"

abbrev pub class_exhausted : Class
class_exhausted = codes "exhausted"

unfoldable pub parse_class : Text → Result Class
parse_class name = do
  require
      (any (λ class. text_eq class name) (class_undecodable ∷ class_refused ∷ class_exhausted ∷ []))
      unknown_class
  ok name
