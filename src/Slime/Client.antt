-- ===== src/Slime/Client.antt =====
-- `SlimeClient` of crates/slime-tracker/src/client.rs: its atomics, and what it hands to the
-- socket and to the event channel. The clock and what the socket answers are arguments.

pub mod History
pub mod Numbering
pub mod Tasks
pub mod Handshake
pub mod Interleaved
pub mod Motion
pub mod Watchdog
pub mod Sequence
use everything_imu.Prelude.{
  ℕ, ◌+◌, ◌%◌, ◌^◌, List, [], ◌∷◌, ◌++◌, Bool, true, false, Result, ok, err, drop, if◌then◌else◌,
}
use everything_imu.Slime.Wire.{Deku}
use everything_imu.Slime.Boards.{BoardType, ImuType, McuType}
use everything_imu.Slime.Sensors.{
  SensorStatus, SensorDataType, ActionType, TrackerPosition, TrackerDataType,
}
use everything_imu.Slime.Strings.{from_str}
use everything_imu.Slime.Serverbound.{
  SlimeQuaternion, Triple, SbPacket, handshake, acceleration, magnetometer, battery_level,
  sensor_info, rotation_data, user_action, feature_flags,
}
use everything_imu.Slime.Serverbound.Datagrams.{sb_packet_body}
use everything_imu.Slime.Packet.{new, to_bytes}
use everything_imu.Slime.Bundle.{encode_bundle}
use everything_imu.Slime.Errors.{SerializeError}

pub record HandshakeEvent : Type 0 where
  pub confirmed : Bool
  pub reset_count : ℕ

-- A datagram that the client built, or one that it sends back as it came.
pub data Outgoing : Type 0 where
  own : List ℕ → Outgoing
  echo : List ℕ → Outgoing

-- What `socket.send` answers: `Ok`, `ConnectionReset` or `ConnectionRefused`, any other error.
pub data SendOutcome : Type 0 where
  delivered unreachable failed : SendOutcome

pub data ClientError : Type 0 where
  io encode : ClientError

pub record HandshakeInfo : Type 0 where
  pub board : BoardType
  pub imu : ImuType
  pub mcu : McuType
  pub mag_status : ℕ
  pub firmware : List ℕ
  pub mac_address : List ℕ

pub record SensorDescriptor : Type 0 where
  pub sensor_id : ℕ
  pub imu_type : ImuType
  pub mag_config : ℕ
  pub position : TrackerPosition
  pub data_type : TrackerDataType

-- The atomics of the client, and in `outgoing` and `events` what has left it so far, oldest first.
pub record SlimeClient : Type 0 where
  pub seq : ℕ
  pub server_supports_bundle : Bool
  pub handshake_confirmed : Bool
  pub packets_sent : ℕ
  pub last_send_ms_unix : ℕ
  pub last_handshake_ms_unix : ℕ
  pub last_inbound_ms_unix : ℕ
  pub handshake_reset_count : ℕ
  pub last_reset_ms_unix : ℕ
  pub outgoing : List Outgoing
  pub events : List HandshakeEvent

-- The socket's answer to one send, and the time that the clock shows after it.
pub record Sending : Type 0 where
  pub outcome : SendOutcome
  pub now : ℕ

-- `fetch_add(1)` on an `AtomicU64`.
abbrev pub bump : ℕ → ℕ
bump n = (n + 1) % 2 ^ 64

-- The atomics when `connect` has made them.
unfoldable pub fresh : SlimeClient
fresh = record {
  seq = 0;
  server_supports_bundle = false;
  handshake_confirmed = false;
  packets_sent = 0;
  last_send_ms_unix = 0;
  last_handshake_ms_unix = 0;
  last_inbound_ms_unix = 0;
  handshake_reset_count = 0;
  last_reset_ms_unix = 0;
  outgoing = [];
  events = [];
}

-- `next_seq` gives `c.seq` and leaves this state.
unfoldable pub next_seq : SlimeClient → SlimeClient
next_seq c = record c { seq = bump c.seq }

unfoldable pub record_sent : SlimeClient → ℕ → SlimeClient
record_sent c now = record c { packets_sent = bump c.packets_sent; last_send_ms_unix = now }

abbrev pub hand_over : SlimeClient → Outgoing → SlimeClient
hand_over c out = record c { outgoing = c.outgoing ++ (out ∷ []) }

unfoldable pub send_packet :
    SlimeClient → List ℕ → Sending → SlimeClient × Result ClientError (Unit {0})
unfolding record_sent
send_packet c bytes s = elim s.outcome [
  | delivered ↦ (record_sent (hand_over c (own bytes)) s.now, ok tt)
  | unreachable ↦ (hand_over c (own bytes), ok tt)
  | failed ↦ (hand_over c (own bytes), err io)
]

module _ (d : Deku) where
  -- `Packet::new(seq, packet).to_bytes()`.
  unfoldable pub datagram : ℕ → SbPacket → List ℕ
  datagram seq packet = to_bytes d (sb_packet_body d) (new d (sb_packet_body d) seq packet)

  -- The body that each `send_*` method of one packet has.
  unfoldable pub send_one :
      SlimeClient → SbPacket → Sending → SlimeClient × Result ClientError (Unit {0})
  unfolding next_seq send_packet datagram
  send_one c packet s = send_packet (next_seq c) (datagram c.seq packet) s

  unfoldable pub send_handshake_inner :
      SlimeClient → HandshakeInfo → SendOutcome → SlimeClient × Result ClientError (Unit {0})
  unfolding next_seq datagram
  send_handshake_inner c info outcome =
      let packet = handshake (record {
        board = info.board;
        imu = info.imu;
        mcu = info.mcu;
        imu_info = (info.mag_status, 0, 0);
        protocol_version = 19;
        firmware = from_str info.firmware;
        mac_address = info.mac_address;
      }) in
      let c' = hand_over (next_seq c) (own (datagram c.seq packet)) in
      elim outcome [ delivered ↦ (c', ok tt) | unreachable ↦ (c', ok tt) | failed ↦ (c', err io) ]

  -- What `connect`, `send_handshake` and the watchdog do when the handshake has left.
  abbrev pub handshake_left :
      ℕ → SlimeClient × Result ClientError (Unit {0}) → SlimeClient × Result ClientError (Unit {0})
  handshake_left now (c, ok r) = (record_sent (record c { last_handshake_ms_unix = now }) now, ok r)
  handshake_left now (c, err e) = (c, err e)

  unfoldable pub send_handshake :
      SlimeClient → HandshakeInfo → Sending → SlimeClient × Result ClientError (Unit {0})
  unfolding record_sent send_handshake_inner
  send_handshake c info s = handshake_left s.now (send_handshake_inner c info s.outcome)

  -- The client when `connect` returns, or its error; binding the socket is left out.
  unfoldable pub connect : HandshakeInfo → Sending → SlimeClient × Result ClientError (Unit {0})
  unfolding fresh record_sent send_handshake_inner
  connect info s = handshake_left s.now (send_handshake_inner fresh info s.outcome)

  unfoldable pub send_sensor_info :
      SlimeClient → SensorDescriptor → Sending → SlimeClient × Result ClientError (Unit {0})
  unfolding send_one
  send_sensor_info c desc = send_one c (
      sensor_info (record {
        sensor_id = desc.sensor_id;
        sensor_status = SensorStatus.working;
        sensor_type = desc.imu_type;
        sensor_config = desc.mag_config;
        has_completed_rest_calibration = 1;
        tracker_position = desc.position;
        tracker_data_type = desc.data_type;
      }))

  unfoldable pub send_feature_flags :
      SlimeClient → List ℕ → Sending → SlimeClient × Result ClientError (Unit {0})
  unfolding send_one
  send_feature_flags c flag_bytes = send_one c (feature_flags flag_bytes)

  abbrev pub rotation_packet : ℕ → SlimeQuaternion → SbPacket
  rotation_packet sensor_id quat = rotation_data sensor_id SensorDataType.normal quat 0

  unfoldable pub send_rotation :
      SlimeClient → ℕ → SlimeQuaternion → Sending → SlimeClient × Result ClientError (Unit {0})
  unfolding send_one
  send_rotation c sensor_id quat = send_one c (rotation_packet sensor_id quat)

  unfoldable pub send_acceleration :
      SlimeClient → ℕ → Triple → Sending → SlimeClient × Result ClientError (Unit {0})
  unfolding send_one
  send_acceleration c sensor_id vector = send_one c (acceleration vector sensor_id)

  unfoldable pub send_magnetometer :
      SlimeClient → ℕ → Triple → Sending → SlimeClient × Result ClientError (Unit {0})
  unfolding send_one
  send_magnetometer c sensor_id vector =
      send_one c (magnetometer sensor_id SensorDataType.normal vector 0)

  unfoldable pub send_user_action :
      SlimeClient → ActionType → Sending → SlimeClient × Result ClientError (Unit {0})
  unfolding send_one
  send_user_action c action = send_one c (user_action action)

  unfoldable pub send_battery :
      SlimeClient → ℕ → ℕ → Sending → SlimeClient × Result ClientError (Unit {0})
  unfolding send_one
  send_battery c voltage_volts level = send_one c (battery_level voltage_volts level)

  -- `next_seq` has run when `encode_bundle` refuses.
  abbrev pub send_encoded :
      SlimeClient
      → Result SerializeError (List ℕ)
      → Sending
      → SlimeClient × Result ClientError (Unit {0})
  send_encoded c (ok bytes) s = send_packet c bytes s
  send_encoded c (err e) s = (c, err encode)

  -- The inner packets are the motion packets without their twelve bytes of header.
  unfoldable pub send_bundle_rot_accel :
      SlimeClient
      → ℕ
      → SlimeQuaternion
      → Triple
      → Sending
      → SlimeClient × Result ClientError (Unit {0})
  unfolding next_seq send_packet datagram
  send_bundle_rot_accel c sensor_id rotation accel s =
      let rot_bytes = datagram 0 (rotation_packet sensor_id rotation) in
      let accel_bytes = datagram 0 (acceleration accel sensor_id) in
      let inners = (17, drop 12 rot_bytes) ∷ (4, drop 12 accel_bytes) ∷ [] in
      send_encoded (next_seq c) (encode_bundle c.seq inners) s

  abbrev pub and_then :
      SlimeClient × Result ClientError (Unit {0})
      → (SlimeClient → SlimeClient × Result ClientError (Unit {0}))
      → SlimeClient × Result ClientError (Unit {0})
  and_then (c, ok r) next = next c
  and_then (c, err e) next = (c, err e)

  -- `s` answers the first send and `s'` the second, if there is one.
  unfoldable pub send_rotation_and_accel :
      SlimeClient
      → ℕ
      → SlimeQuaternion
      → Triple
      → Sending
      → Sending
      → SlimeClient × Result ClientError (Unit {0})
  unfolding send_bundle_rot_accel send_rotation send_acceleration
  send_rotation_and_accel c sensor_id rotation accel s s' =
      if c.server_supports_bundle
      then send_bundle_rot_accel c sensor_id rotation accel s
      else and_then (send_rotation c sensor_id rotation s)
          (λ c'. send_acceleration c' sensor_id accel s')
