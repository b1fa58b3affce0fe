-- ===== src/Tests.antt =====
-- The theorems at concrete inputs, and runs of the definitions.
pub mod Fixtures
mod Domain
mod Counting
mod Consuming
pub mod Samples
mod Relaying
mod Reading
mod Housekeeping
mod Service
mod Looping
