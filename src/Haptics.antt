-- ===== src/Haptics.antt =====
-- crates/osc-haptics/src: OSC messages to rumble commands.
pub mod Mapping
pub mod Sniffer
pub mod Listener
pub mod Config
