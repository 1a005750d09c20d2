-- ===== src/Policy.antt =====
-- The crate duende-policy (crates/duende-policy/src).
pub mod CircuitBreaker
pub mod Gate
pub mod Jidoka
pub mod Limiter
mod Examples
