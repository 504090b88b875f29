-- ===== src/Remote.antt =====
-- The remote hub of crates/device-remote.
pub mod Utf8
pub mod Protocol
pub mod Hub
pub mod Device
