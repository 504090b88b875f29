-- ===== src/Slime.antt =====
-- crates/slime-tracker: the SlimeVR UDP protocol and its client.
pub mod Errors
pub mod Wire
pub mod Boards
pub mod Sensors
pub mod Ids
pub mod Strings
pub mod Serverbound
pub mod Packet
pub mod Clientbound
pub mod Bundle
pub mod Client
