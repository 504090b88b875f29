-- ===== src/Joycon.antt =====
-- The Joy-Con driver of crates/device-joycon.
pub mod Report
pub mod Subcmd
pub mod Clones
pub mod SpiCal
pub mod Jc2
