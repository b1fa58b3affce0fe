-- ===== src/Http.antt =====
-- internal/interfaces/http: what the service answers to its callers.
pub mod Refusals
pub mod Server
pub mod Payments
