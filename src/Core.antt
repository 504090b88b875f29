-- ===== src/Core.antt =====
-- crates/core/src: the bridge between the drivers and the server.
pub mod Latency
pub mod Registry
pub mod Pipeline
