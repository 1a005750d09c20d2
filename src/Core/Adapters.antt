-- ===== src/Core/Adapters.antt =====
-- The adapters of crates/duende-core/src/adapters/.
pub mod Tool
pub mod Timed
pub mod Native
pub mod Systemd
pub mod Container
pub mod Launchd
pub mod Pepita
pub mod Wos
mod Examples
mod ToolExamples
