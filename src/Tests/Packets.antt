-- ===== src/Tests/Packets.antt =====
-- Datagrams of both directions, on concrete bytes.
use everything_imu.Prelude.{inr, ℕ, ◌≡◌, ◌≤◌, refl, List, [], ◌∷◌, ◌++◌, ok, arith, drop, to_be}
use everything_imu.Slime.Wire.{big_endian}
use everything_imu.Slime.Strings.{from_str, from_str_lem}
use everything_imu.Slime.Packet.{Packet, new, to_bytes, serialize_into, deserialize_from}
use everything_imu.Slime.Boards.{BoardType, ImuType, McuType}
use everything_imu.Slime.Serverbound.{SbPacket, handshake}
use everything_imu.Slime.Serverbound.Ranges.{IsWire}
use everything_imu.Slime.Serverbound.Datagrams.{sb_packet_body, deserialize_from-sb}
use everything_imu.Slime.Clientbound.{CbPacket, ping, cb_body}
use everything_imu.Slime.Clientbound.RoundTrip.{cb_packet_body, deserialize_from-cb}

-- A board that is listed, and a sensor whose id 200 is not.
abbrev greeting : SbPacket
greeting = handshake (record {
  board = BoardType.custom;
  imu = ImuType.unknown_variant 200;
  mcu = McuType.esp32;
  imu_info = (1, 0, 0);
  protocol_version = 19;
  firmware = record { count = 2; bytes = 72 ∷ 105 ∷ [] };
  mac_address = 1 ∷ 2 ∷ 3 ∷ 4 ∷ 5 ∷ 6 ∷ [];
})

greeting-IsWire : IsWire greeting
greeting-IsWire = record {
  board = tt;
  imu = ((omega arith, inr (omega arith)), λ h. absurd (omega (arith, h)));
  mcu = tt;
  imu_info = (omega arith, omega arith, omega arith);
  protocol_version = omega arith;
  firmware = (omega arith, refl);
  mac_address = refl;
}

deserialize_from-sb_example :
    deserialize_from big_endian (sb_packet_body big_endian) (
      to_bytes big_endian
        (sb_packet_body big_endian)
        (new big_endian (sb_packet_body big_endian) 9 greeting))
    ≡ ok (new big_endian (sb_packet_body big_endian) 9 greeting)
deserialize_from-sb_example =
    deserialize_from-sb big_endian 9 greeting (omega arith) greeting-IsWire

from_str_lem_example :
    ((from_str (72 ∷ 105 ∷ [])).count ≡ 2)
    × ((from_str (72 ∷ 105 ∷ [])).count ≤ 255)
    × ((from_str (72 ∷ 105 ∷ [])).bytes ++ drop 255 (72 ∷ 105 ∷ []) ≡ 72 ∷ 105 ∷ [])
unfolding from_str
from_str_lem_example = from_str_lem (72 ∷ 105 ∷ [])

abbrev challenge : CbPacket
challenge = ping (1 ∷ 2 ∷ 3 ∷ 4 ∷ [])

deserialize_from-cb_example :
    deserialize_from big_endian (cb_packet_body big_endian) (
      to_bytes big_endian
        (cb_packet_body big_endian)
        (new big_endian (cb_packet_body big_endian) 9 challenge))
    ≡ ok (new big_endian (cb_packet_body big_endian) 9 challenge)
deserialize_from-cb_example = deserialize_from-cb big_endian 9 challenge (omega arith) refl

abbrev challenge_packet : Packet CbPacket
challenge_packet = record { tag = 10; seq = 9; payload = challenge }

abbrev challenge_bytes : List ℕ
challenge_bytes = 0 ∷ 0 ∷ 0 ∷ 10 ∷ 0 ∷ 0 ∷ 0 ∷ 0 ∷ 0 ∷ 0 ∷ 0 ∷ 9 ∷ 1 ∷ 2 ∷ 3 ∷ 4 ∷ []

abbrev scratch : List ℕ
scratch = 7 ∷ 7 ∷ 7 ∷ 7 ∷ 7 ∷ 7 ∷ 7 ∷ 7 ∷ 7 ∷ 7 ∷ 7 ∷ 7 ∷ 7 ∷ 7 ∷ 7 ∷ 7 ∷ 8 ∷ 8 ∷ []

serializes :
    serialize_into big_endian (cb_packet_body big_endian) challenge_packet scratch
    ≡ ok (challenge_bytes ++ 8 ∷ 8 ∷ [], 16)
unfolding serialize_into to_bytes cb_body to_be big_endian
serializes = refl
