-- ===== src/Lib.antt =====
-- everything-imu: motion controllers as SlimeVR full-body trackers.
--
-- A device driver (crates/device-*) reads samples and buttons from a controller. crates/core fuses
-- the samples, and crates/slime-tracker sends the result to a SlimeVR server over UDP;
-- crates/osc-haptics turns OSC messages into rumble. Modelled are the SlimeVR client with its wire
-- protocol, the shared state machines of the drivers, the hub that takes in remote devices, the
-- reports of the Joy-Cons and of Sony's controllers, the stream of the BLE tracker, the registry,
-- pipelines and latency windows of the core, and the haptic bridge.
--
-- - Prelude: Boolean tests, lists measured by native numbers, machine words as bytes, results.
-- - Slime: crates/slime-tracker/src. Boards, Sensors: the enums of serverbound.rs and their ids.
--   Serverbound, Clientbound: SbPacket and CbPacket, their writers and readers. Strings, Packet,
--   Bundle: SlimeString, Packet, encode_bundle and decode_bundle of lib.rs. Client: SlimeClient of
--   client.rs, a record of its atomics and of what has left it. Client/Tasks: receive_loop,
--   handshake_watchdog, and runs of calls and rounds. Client/Interleaved: the same two tasks, one
--   access to the shared atomics, the event channel or the socket at a time, in any order; its child
--   Alone holds the rounds that nothing interrupts against the steps of Tasks.
-- - Traits: crates/device-traits/src. Reset: ResetButtonDetector of reset.rs. Health:
--   HealthClassifier of health.rs.
-- - Maps: hash maps and vectors as lists.
-- - Slices: reads of a byte slice, with their panics.
-- - Remote: crates/device-remote/src. Utf8: `from_utf8`. Protocol: `parse` and the encoders of
--   protocol.rs; Protocol/Wire: messages as a hub writes them. Hub: the routing table of
--   factory.rs with `handle_msg`, the sweep and the loop. Device: RemoteDevice of device.rs.
-- - Joycon: crates/device-joycon/src. Report: report.rs and reset_buttons.rs. Subcmd: subcmd.rs.
--   SpiCal: spi_cal.rs. Jc2: advertisements and input reports of jc2.rs, with the commands and
--   replies in Jc2/Flash. Clones: clone_detection.rs.
-- - Core: crates/core/src. Latency: the tracker and the history of latency.rs. Registry: the device
--   registry of app_state.rs, as steps between which its lock is free. Pipeline: the event loop of
--   pipeline.rs.
-- - Haptics: crates/osc-haptics/src. Mapping: mapping.rs. Config: config.rs. Sniffer: sniffer.rs.
--   Listener: `serve` and `run_bridge` of listener.rs; its children follow the motors through
--   packets and ticks.
-- - Hopx: crates/device-hopx/src. Protocol: the record parser of protocol.rs.
-- - DualSense: crates/device-dualsense/src. Report: report.rs, with ids.rs and axis_remap.rs;
--   Report/Calibration: `parse_feature_calibration`.
-- - PsMove: crates/device-psmove/src. Report: the parser of report.rs with its clock, and what it
--   uses of ids.rs, axis_remap.rs and calibration.rs.
-- - Tests: runs on concrete inputs.
--
-- Modelling choices. A byte, an integer, a time and the bit pattern of an `f32` are native numbers;
-- a theorem that needs the range of a Rust type says so. The client's counters wrap at 2 ^ 64; the
-- loss counters of a route, which start again every ten seconds, are not bounded. The third-party
-- crate `deku` is the parameter Slime.Wire.Deku: big-endian integers, and the error of
-- a short read. The loop of `decode_bundle` runs on as much fuel as the buffer has bytes; a round
-- takes six of them at least; the loop of `drain_chunks` runs on one more than the buffer has bytes,
-- and a round takes one of them at least. The floating-point operations of latency.rs, of the
-- haptic bridge, of the Sony controllers, of spi_cal.rs and of jc2.rs are parameters. The client is
-- explicit state passing: a send takes the socket's answer and the clock's time as arguments. A
-- round of a task is one step in Client/Tasks, and in what is shown with its runs; Client/Interleaved
-- splits the rounds into their accesses, since the two tasks run in parallel, and there only a call and
-- the re-send of a handshake are one action each. The addresses that
-- remote devices share are cells of a store; a time on the hub is in
-- milliseconds. Not modelled: sockets, logging, statistics for the UI, floating-point filters, the
-- database and the apps.
pub mod Prelude
pub mod Maps
pub mod Slices
pub mod Traits
pub mod Remote
pub mod Joycon
pub mod Core
pub mod Haptics
pub mod Hopx
pub mod DualSense
pub mod PsMove
mod Tests
pub mod Slime
