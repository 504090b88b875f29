-- ===== src/Hopx.antt =====
-- crates/device-hopx: the BLE tracker.
pub mod Protocol
