-- ===== src/PsMove.antt =====
-- The PS Move driver of crates/device-psmove.
pub mod Report
