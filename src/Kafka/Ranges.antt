-- ===== src/Kafka/Ranges.antt =====
-- internal/infrastructure/kafka/replay.go: the ranges of offsets that a replay has to read.
use kafka_lab.Base.{List, Option, [], if◌then◌else◌, ltb, none, some, ℕ, ◌==◌, ◌∷◌}
use kafka_lab.Base.Int.{negsuc, pos, ℤ}
use kafka_lab.Base.Errors.{Result, ok, replay_failed, wrap, ◌>>=◌}

-- `offsetRange`, from the next offset up to the one behind the last.
pub record OffsetRange : Type 0 where
  pub next_offset : ℕ
  pub end_offset : ℕ

-- Offsets by partition, as the brokers list them; a group that has committed none stands at -1.
abbrev pub Offsets : Type 0 → Type 0
Offsets O = List (ℕ × O)

unfoldable pub lookup_offset : {O : Type 0} → ℕ → Offsets O → Option O
lookup_offset p [] = none
lookup_offset p ((q, o) ∷ rest) = if q == p then some o else lookup_offset p rest

-- The writes of a map.
unfoldable pub set_offset : {O : Type 0} → ℕ → O → Offsets O → Offsets O
set_offset p o [] = (p, o) ∷ []
set_offset p o ((q, o') ∷ rest) = if q == p then (p, o) ∷ rest else (q, o') ∷ set_offset p o rest

unfoldable pub delete_offset : {O : Type 0} → ℕ → Offsets O → Offsets O
delete_offset p [] = []
delete_offset p ((q, o) ∷ rest) =
    let later = delete_offset p rest in if q == p then later else (q, o) ∷ later

-- `max` with an offset that may be -1.
abbrev pub max_with : ℕ → ℤ → ℕ
max_with n (pos m) = if ltb n m then m else n
max_with n (negsuc m) = n

abbrev pub listed_start : Option ℕ → ℕ
listed_start none = 0
listed_start (some n) = n

abbrev pub from_committed : ℕ → Option ℤ → ℕ
from_committed position none = position
from_committed position (some at) = max_with position at

unfoldable pub starting_point : Offsets ℕ → Offsets ℤ → ℕ → ℕ
unfolding lookup_offset
starting_point starts group_offsets p =
    from_committed (listed_start (lookup_offset p starts)) (lookup_offset p group_offsets)

-- The loop of `unreplayed` over the partitions and their ends.
unfoldable pub ranges_to_read : Offsets ℕ → Offsets ℤ → Offsets ℕ → Offsets OffsetRange
unfolding starting_point set_offset
ranges_to_read starts group_offsets [] = []
ranges_to_read starts group_offsets ((p, e) ∷ ends) =
    let rest = ranges_to_read starts group_offsets ends in
    let position = starting_point starts group_offsets p in
    if ltb position e
    then set_offset p (record { next_offset = position; end_offset = e }) rest
    else rest

-- `unreplayed`, over what the brokers answer.
unfoldable pub unreplayed :
    Result (Offsets ℕ) → Result (Offsets ℕ) → Result (Offsets ℤ) → Result (Offsets OffsetRange)
unfolding ranges_to_read
unreplayed starts ends group_offsets = do
  from ← wrap (replay_failed ∷ []) starts
  upto ← wrap (replay_failed ∷ []) ends
  at ← wrap (replay_failed ∷ []) group_offsets
  ok (ranges_to_read from at upto)
