-- ===== src/Tests/Clients.antt =====
-- The client on short histories.
use everything_imu.Prelude.{
  ℕ, ◌≡◌, refl, List, [], ◌∷◌, ◌++◌, map, true, false, some, ok, from_be_acc, arith,
}
use everything_imu.Slime.Wire.{big_endian}
use everything_imu.Slime.Boards.{BoardType, ImuType, McuType}
use everything_imu.Slime.Bundle.{decode_bundle}
use everything_imu.Slime.Serverbound.{SlimeQuaternion, Triple, acceleration, read_sb_body}
use everything_imu.Slime.Client.{
  SlimeClient, HandshakeInfo, Sending, delivered, failed, own, fresh, connect, rotation_packet,
  send_rotation_and_accel,
}
use everything_imu.Slime.Client.Tasks.{Call, receives, ticks, sends_motion, run, handle_inbound}
use everything_imu.Slime.Client.Interleaved.{
  waiting, sleeping, Action, arrives, receiver_goes, watchdog_goes, act, acted, arrive,
  advance_receiver, advance_watchdog, spawned,
}
use everything_imu.Slime.Client.Interleaved.Owed.{IsPaired}
use everything_imu.Slime.Client.Interleaved.Paired.{acted-IsPaired}
use everything_imu.Slime.Client.Interleaved.Races.{overtakes, overtaken_bundles}
use everything_imu.Slime.Client.Numbering.{IsSequenced}
use everything_imu.Slime.Client.Sequence.{run-IsSequenced}
use everything_imu.Slime.Client.Motion.{
  Fallback, send_rotation_and_accel_bundle, send_rotation_and_accel-Fallback,
}
use everything_imu.Slime.Client.Watchdog.{AreResent, ticking, run-IsLost}

abbrev info : HandshakeInfo
info = record {
  board = BoardType.custom;
  imu = ImuType.bmi160;
  mcu = McuType.esp32;
  mag_status = 0;
  firmware = 48 ∷ 46 ∷ 49 ∷ [];
  mac_address = 1 ∷ 2 ∷ 3 ∷ 4 ∷ 5 ∷ 6 ∷ [];
}

abbrev good : Sending
good = record { outcome = delivered; now = 100 }

abbrev bad : Sending
bad = record { outcome = failed; now = 101 }

abbrev turned : SlimeQuaternion
turned = record { i = 0; j = 0; k = 0; w = 1065353216 }

abbrev resting : Triple
resting = (0, 0, 1092511007)

-- A PING of the server, which confirms the handshake and is sent back.
abbrev ping : List ℕ
ping = 0 ∷ 0 ∷ 0 ∷ 10 ∷ 0 ∷ 0 ∷ 0 ∷ 0 ∷ 0 ∷ 0 ∷ 0 ∷ 1 ∷ 1 ∷ 2 ∷ 3 ∷ 4 ∷ []

-- Confirmed by a packet, moving, then silent until the watchdog notices.
abbrev history : List Call
history = receives ping 200 ∷ sends_motion 0 turned resting good bad ∷ ticks 5000 good ∷ []

-- A client that an inbound packet at 1000 confirmed.
abbrev confirmed : SlimeClient
confirmed = record fresh { seq = 5; handshake_confirmed = true; last_inbound_ms_unix = 1000 }

abbrev bundling : SlimeClient
bundling = record confirmed { server_supports_bundle = true }

run-IsSequenced_example : IsSequenced (run big_endian info (connect big_endian info bad).0 history)
run-IsSequenced_example = run-IsSequenced big_endian info bad history (tt, (ground arith, (tt, tt)))

run-IsLost_example :
    AreResent big_endian info confirmed 3500 confirmed 2
      (run big_endian info confirmed (ticking big_endian info ((3500, good) ∷ (4000, bad) ∷ [])))
run-IsLost_example =
    run-IsLost big_endian info confirmed 3500 good ((4000, bad) ∷ []) refl (omega arith)
      (omega arith)

send_rotation_and_accel_bundle_example :
    (bytes rot acc : List ℕ) × ((send_rotation_and_accel big_endian bundling 1 turned resting good
        bad).0.outgoing
      ≡ bundling.outgoing ++ (own bytes ∷ []))
    × (decode_bundle bytes ≡ some (ok (5, (17, rot) ∷ (4, acc) ∷ [])))
    × (read_sb_body big_endian 17 rot ≡ some (rotation_packet big_endian 1 turned, []))
    × (read_sb_body big_endian 4 acc ≡ some (acceleration resting 1, []))
send_rotation_and_accel_bundle_example =
    send_rotation_and_accel_bundle big_endian bundling 1 turned resting good bad (ground arith)
      (omega arith) refl

send_rotation_and_accel-Fallback_example :
    Fallback big_endian confirmed
      (rotation_packet big_endian 1 turned)
      (acceleration resting 1)
      failed
      (send_rotation_and_accel big_endian confirmed 1 turned resting bad good)
unfolding fresh
send_rotation_and_accel-Fallback_example =
    send_rotation_and_accel-Fallback big_endian confirmed 1 turned resting bad good refl

abbrev much_later : Sending
much_later = record { outcome = delivered; now = 5000 }

-- A reply confirms the handshake. Then the watchdog expires it, and the swap of the next reply falls
-- between the store of the flag and the send of the event.
abbrev swap_in_between : List (Action big_endian info)
swap_in_between =
    arrives ping 200
    ∷ receiver_goes
    ∷ receiver_goes
    ∷ receiver_goes
    ∷ receiver_goes
    ∷ watchdog_goes much_later
    ∷ watchdog_goes much_later
    ∷ watchdog_goes much_later
    ∷ arrives ping 5000
    ∷ receiver_goes
    ∷ receiver_goes
    ∷ receiver_goes
    ∷ watchdog_goes much_later
    ∷ watchdog_goes much_later
    ∷ watchdog_goes much_later
    ∷ watchdog_goes much_later
    ∷ []

-- The events then say true, true, false, while the flag is set.
out_of_turn :
    let c = (acted big_endian info (spawned big_endian info good) swap_in_between).client in
    (map (λ e. e.confirmed) c.events ≡ true ∷ true ∷ false ∷ []) × (c.handshake_confirmed ≡ true)
unfolding acted act arrive advance_receiver advance_watchdog handle_inbound spawned connect fresh
    from_be_acc
out_of_turn = (refl, refl)

acted-IsPaired_example :
    IsPaired (acted big_endian info (spawned big_endian info good) swap_in_between)
acted-IsPaired_example = acted-IsPaired big_endian info good swap_in_between

overtaken_bundles_example :
    let t =
      acted big_endian info
        (record { client = confirmed; receiver = waiting; watchdog = sleeping })
        (overtakes big_endian info much_later) in
    (t.client.handshake_confirmed ≡ false) × (t.client.server_supports_bundle ≡ true)
overtaken_bundles_example =
    overtaken_bundles big_endian info confirmed much_later refl (omega arith) (omega arith)
