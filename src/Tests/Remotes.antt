-- ===== src/Tests/Remotes.antt =====
-- The remote hub on concrete datagrams.
use everything_imu.Prelude.{ℕ, ◌≡◌, ◌+◌, refl, List, [], ◌∷◌, some, true, arith}
use everything_imu.Slices.{Returns}
use everything_imu.Remote.Utf8.{is_utf8, is_utf8_after}
use everything_imu.Remote.Protocol.{phone, ImuSample, Announce, RemoteMsg, announce, imu, parse}
use everything_imu.Remote.Protocol.Total.{parse-Returns}
use everything_imu.Remote.Protocol.Wire.{wire}
use everything_imu.Remote.Protocol.RoundTrip.{parse-wire}
use everything_imu.Remote.Hub.{
  SocketAddr, new_hub, sent, Input, datagram, tick, run, receive, new_loss,
}
use everything_imu.Remote.Hub.Peers.{IsHub}
use everything_imu.Remote.Hub.Reach.{IsReached, run-IsHub, receive-IsReached}
use everything_imu.Remote.Hub.Loss.{arrived, arrived_lem}

-- A count of samples that the datagram does not hold.
abbrev lying : List ℕ
lying = 69 ∷ 73 ∷ 77 ∷ 85 ∷ 1 ∷ 5 ∷ 7 ∷ 0 ∷ 255 ∷ 1 ∷ []

parse-Returns_example : Returns (parse lying)
parse-Returns_example = parse-Returns lying

abbrev phone_sample : ImuSample
phone_sample = record {
  timestamp_us = 42;
  gyro = (1, 2, 3);
  accel = (0, 0, 1092511007);
  mag = some (4, 5, 6);
}

abbrev motion : RemoteMsg
motion = imu 7 (some 65535) (phone_sample ∷ phone_sample ∷ [])

parse-wire_example : parse (wire motion (9 ∷ 9 ∷ [])) ≡ some (some motion)
parse-wire_example = parse-wire motion (9 ∷ 9 ∷ []) (ground arith)

abbrev pixel : Announce
pixel = record {
  handle = 7;
  kind = phone;
  mac = 2 ∷ 0 ∷ 0 ∷ 0 ∷ 0 ∷ 9 ∷ [];
  has_mag = true;
  has_battery = true;
  has_rumble = true;
  rate_hz = 200;
  name = 80 ∷ 120 ∷ [];
}

-- A phone announces itself, and comes back from another port after a sweep.
abbrev before : SocketAddr
before = (10, 4000)

abbrev after : SocketAddr
after = (10, 4001)

announces : parse (wire (announce pixel) []) ≡ some (some (announce pixel))
announces =
    parse-wire (announce pixel) []
      (omega arith, omega arith, refl, omega arith, unfold is_utf8 is_utf8_after in refl)

abbrev inputs : List Input
inputs = datagram before (wire (announce pixel) []) 100 sent true ∷ tick 5000 ∷ []

run-IsHub_example : IsHub (run new_hub inputs)
run-IsHub_example = run-IsHub inputs

receive-IsReached_example :
    IsReached after (receive (run new_hub inputs) after (wire (announce pixel) []) 6000 sent true)
receive-IsReached_example =
    receive-IsReached inputs after (wire (announce pixel) []) (announce pixel) 6000 sent true
      announces refl

arrived_lem_example :
    ((arrived new_loss ((65534, 0) ∷ (65535, 5) ∷ (65538, 9) ∷ [])).received ≡ 3)
    × ((arrived new_loss ((65534, 0) ∷ (65535, 5) ∷ (65538, 9) ∷ [])).received
          + (arrived new_loss ((65534, 0) ∷ (65535, 5) ∷ (65538, 9) ∷ [])).lost
          + 65534
        ≡ 65539)
arrived_lem_example = arrived_lem 0 65534 ((65535, 5) ∷ (65538, 9) ∷ []) (ground arith)
