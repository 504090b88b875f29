-- ===== src/Slime/Client/Tasks.antt =====
-- The two background tasks of crates/slime-tracker/src/client.rs, and runs of the client.
-- A round of a task is one step here: rounds and calls are not interleaved within one another, and the
-- clock does not move within a step. Interleaved splits the rounds into their accesses.
use everything_imu.Prelude.{
  ℕ, ◌-◌, ◌^◌, List, [], ◌∷◌, ◌++◌, true, false, not, ◌&&◌, ltb, leb, ◌==◌, if◌then◌else◌, length,
  take, get_or, bit_and, from_be,
}
use everything_imu.Slime.Wire.{Deku}
use everything_imu.Slime.Sensors.{ActionType}
use everything_imu.Slime.Serverbound.{SlimeQuaternion, Triple}
use everything_imu.Slime.Clientbound.{protocol_bundle_support}
use everything_imu.Slime.Client.{
  SlimeClient, HandshakeInfo, SensorDescriptor, Sending, echo, bump, hand_over, handshake_left,
  send_handshake_inner, record_sent, send_handshake, send_sensor_info, send_feature_flags,
  send_rotation_and_accel, send_rotation, send_acceleration, send_magnetometer, send_user_action,
  send_battery,
}

-- FEATURE_FLAGS sets the bundle flag from bit 0 of the first flag byte, PING is sent back.
unfoldable pub handle_inbound : SlimeClient → ℕ → List ℕ → SlimeClient
handle_inbound c tag payload =
    if tag == 22 && leb 13 (length payload)
    then record c {
      server_supports_bundle =
          not (bit_and (get_or payload 12 0) (2 ^ protocol_bundle_support) == 0);
    }
    else if tag == 10
    then hand_over c (echo payload)
    else c

-- `swap(true)`, with the event of a change.
unfoldable pub confirm : SlimeClient → SlimeClient
confirm c = if c.handshake_confirmed then c else record c {
  handshake_confirmed = true;
  events = c.events ++ ((record { confirmed = true; reset_count = c.handshake_reset_count }) ∷ []);
}

-- A round of `receive_loop` whose `recv` gets this datagram, into a buffer of 1500 bytes. A `recv`
-- that fails changes nothing here: it is counted for the log alone.
unfoldable pub receive : SlimeClient → List ℕ → ℕ → SlimeClient
unfolding handle_inbound confirm
receive c datagram now =
    let payload = take 1500 datagram in
    if ltb (length payload) 4
    then c
    else handle_inbound (confirm (record c { last_inbound_ms_unix = now }))
        (from_be (take 4 payload)) payload

-- The first half of a watchdog round: more than two seconds without an inbound packet.
unfoldable pub expire : SlimeClient → ℕ → SlimeClient
expire c now =
    if c.handshake_confirmed
      && (ltb 0 c.last_inbound_ms_unix && ltb 2000 (now - c.last_inbound_ms_unix))
    then record c {
      handshake_confirmed = false;
      server_supports_bundle = false;
      handshake_reset_count = bump c.handshake_reset_count;
      last_reset_ms_unix = now;
      events =
          c.events
          ++ ((record { confirmed = false; reset_count = bump c.handshake_reset_count }) ∷ []);
    }
    else c

-- The calls of the client's users, the datagrams that arrive, and the watchdog's ticks.
pub data Call : Type 0 where
  receives : (datagram : List ℕ) (now : ℕ) → Call
  ticks : (now : ℕ) → Sending → Call
  handshakes : Sending → Call
  sends_sensor_info : SensorDescriptor → Sending → Call
  sends_feature_flags : (flag_bytes : List ℕ) → Sending → Call
  sends_motion :
      (sensor_id : ℕ) (rotation : SlimeQuaternion) (accel : Triple) (s s' : Sending) → Call
  sends_rotation : (sensor_id : ℕ) (quat : SlimeQuaternion) → Sending → Call
  sends_acceleration : (sensor_id : ℕ) (vector : Triple) → Sending → Call
  sends_magnetometer : (sensor_id : ℕ) (vector : Triple) → Sending → Call
  sends_user_action : ActionType → Sending → Call
  sends_battery : (voltage_volts level : ℕ) → Sending → Call

module _ (d : Deku) (info : HandshakeInfo) where
  -- The second half re-sends the handshake while none is confirmed.
  unfoldable pub watchdog : SlimeClient → ℕ → Sending → SlimeClient
  unfolding expire send_handshake_inner record_sent
  watchdog c now s =
      let c' = expire c now in
      if c'.handshake_confirmed
      then c'
      else (handshake_left d s.now (send_handshake_inner d c' info s.outcome)).0

  unfoldable pub step : SlimeClient → Call → SlimeClient
  unfolding receive watchdog send_handshake send_sensor_info send_feature_flags
      send_rotation_and_accel send_rotation send_acceleration send_magnetometer send_user_action
      send_battery
  step c (receives datagram now) = receive c datagram now
  step c (ticks now s) = watchdog c now s
  step c (handshakes s) = (send_handshake d c info s).0
  step c (sends_sensor_info desc s) = (send_sensor_info d c desc s).0
  step c (sends_feature_flags flag_bytes s) = (send_feature_flags d c flag_bytes s).0
  step c (sends_motion sensor_id rotation accel s s') =
      (send_rotation_and_accel d c sensor_id rotation accel s s').0
  step c (sends_rotation sensor_id quat s) = (send_rotation d c sensor_id quat s).0
  step c (sends_acceleration sensor_id vector s) = (send_acceleration d c sensor_id vector s).0
  step c (sends_magnetometer sensor_id vector s) = (send_magnetometer d c sensor_id vector s).0
  step c (sends_user_action action s) = (send_user_action d c action s).0
  step c (sends_battery voltage_volts level s) = (send_battery d c voltage_volts level s).0

  unfoldable pub run : SlimeClient → List Call → SlimeClient
  unfolding step
  run c [] = c
  run c (call ∷ calls) = run (step c call) calls
