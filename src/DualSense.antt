-- ===== src/DualSense.antt =====
-- The DualSense and DualShock 4 driver of crates/device-dualsense.
pub mod Report
