-- ===== src/Observe.antt =====
-- crates/duende-observe/src: what is seen of the daemons from outside.
pub mod Proc
pub mod Monitor
pub mod Tracer
mod Examples
