-- ===== src/Platform.antt =====
-- crates/duende-platform/src: the adapters that run daemons as processes of a platform.
pub mod Error
pub mod Handle
pub mod Commands
pub mod Linux
pub mod Container
pub mod Native
pub mod MacOs
pub mod Pepita
pub mod Memory
pub mod Wos
mod Examples
mod CommandExamples
