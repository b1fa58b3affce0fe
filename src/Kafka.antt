-- ===== src/Kafka.antt =====
-- internal/infrastructure/kafka: the consumer, its retry chain and its dead letters.
pub mod Stage
pub mod Chain
pub mod Headers
pub mod Wire
pub mod Detours
pub mod Routing
pub mod Batch
pub mod Commits
pub mod Pauses
pub mod Polling
pub mod Ranges
pub mod Replay
pub mod Publisher
