-- ===== src/Core.antt =====
-- The crate duende-core (crates/duende-core/src).
pub mod Types
pub mod Error
pub mod Config
pub mod Context
pub mod Restart
pub mod Manager
pub mod Metrics
pub mod Adapter
pub mod Adapters
mod Examples
