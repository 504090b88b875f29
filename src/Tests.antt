-- ===== src/Tests.antt =====
-- Runs of the components on concrete inputs.
mod Bundles
mod Packets
mod Clients
mod Devices
mod Remotes
mod Joycons
mod Latencies
mod Registries
mod Haptic
mod Trackers
mod Moves
mod Pipelines
mod Sonys
