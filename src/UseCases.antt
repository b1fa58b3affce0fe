-- ===== src/UseCases.antt =====
-- internal/application: the use cases.
pub mod Authorize
pub mod Movement
pub mod Agreement
pub mod RecordMovement
pub mod Relay
pub mod Change
pub mod Prune
pub mod ReadTotals
