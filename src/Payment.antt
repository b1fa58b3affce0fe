-- ===== src/Payment.antt =====
-- internal/domain/payment: the payments domain.
pub mod Money
pub mod Identity
pub mod Events
pub mod Aggregate
pub mod Lifecycle
pub mod Format
