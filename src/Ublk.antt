-- ===== src/Ublk.antt =====
-- crates/duende-ublk/src: commands to the control device of the ublk driver, and the clean-up of
-- devices whose daemon is gone.
pub mod Error
pub mod Sys
pub mod Control
pub mod Devices
mod Examples
