-- ===== src/Traits.antt =====
-- crates/device-traits: what every device driver shares.
pub mod Reset
pub mod Health
