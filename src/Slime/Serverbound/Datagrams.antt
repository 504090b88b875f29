-- ===== src/Slime/Serverbound/Datagrams.antt =====
-- Server-bound packets as datagrams, and the bodies of the two motion packets.
use everything_imu.Prelude.{ℕ, ◌+◌, ◌<◌, ◌^◌, ◌≡◌, List, [], ok, arith, length, length-append}
use everything_imu.Slime.Wire.{Deku, length-uint_bytes}
use everything_imu.Slime.Packet.{PacketBody, new, to_bytes, deserialize_from}
use everything_imu.Slime.Packet.Laws.{deserialize_from-to_bytes}
use everything_imu.Slime.Serverbound.{
  SlimeQuaternion, Triple, SbPacket, heartbeat, acceleration, rotation_data, sb_id, sb_body,
  read_sb_body, put, put_triple, put_quaternion,
}
use everything_imu.Slime.Serverbound.Ranges.{IsTriple, IsQuaternion, IsWire}
use everything_imu.Slime.Sensors.{SensorDataType, sensor_data_type_id}
use everything_imu.Slime.Serverbound.RoundTrip.{read_sb_body-sb_body}

pub sb_id-lt : (p : SbPacket) → sb_id p < 2 ^ 32
unfolding sb_id
sb_id-lt (heartbeat t) = omega arith
sb_id-lt _ = omega arith

module _ (d : Deku) where
  abbrev pub sb_packet_body : PacketBody SbPacket
  sb_packet_body = record { deku_id = sb_id; body = sb_body d; read_body = read_sb_body d }

  -- A server-bound datagram that was written, with a `u64` sequence number and fields in the ranges
  -- of their Rust types, is read back whole. The id in an `UnknownVariant` of an enum is none of the
  -- listed ones, and the length of a string is its prefix.
  pub deserialize_from-sb :
      (seq : ℕ) (p : SbPacket)
      → seq < 2 ^ 64
      → IsWire p
      → deserialize_from d sb_packet_body (to_bytes d sb_packet_body (new d sb_packet_body seq p))
        ≡ ok (new d sb_packet_body seq p)
  deserialize_from-sb seq p hs hp =
      deserialize_from-to_bytes d sb_packet_body seq p (sb_id-lt p) hs (read_sb_body-sb_body d p hp)

  length-put : (w x : ℕ) (tail : List ℕ) → x < 256 ^ w → length (put d w x tail) ≡ w + length tail
  unfolding put
  length-put w x tail h =
      omega (arith, length-append (d.uint_bytes w x) tail, length-uint_bytes d w x h)

  length-put_triple :
      (v : Triple) (tail : List ℕ) → IsTriple v → length (put_triple d v tail) ≡ 12 + length tail
  unfolding put_triple
  length-put_triple (x, y, z) tail (hx, hy, hz) = omega (
    arith,
    length-put 4 x (put d 4 y (put d 4 z tail)) hx,
    length-put 4 y (put d 4 z tail) hy,
    length-put 4 z tail hz,
  )

  length-put_quaternion :
      (q : SlimeQuaternion) (tail : List ℕ)
      → IsQuaternion q
      → length (put_quaternion d q tail) ≡ 16 + length tail
  unfolding put_quaternion
  length-put_quaternion q tail (hi, hj, hk, hw) = omega (
    arith,
    length-put 4 q.i (put d 4 q.j (put d 4 q.k (put d 4 q.w tail))) hi,
    length-put 4 q.j (put d 4 q.k (put d 4 q.w tail)) hj,
    length-put 4 q.k (put d 4 q.w tail) hk,
    length-put 4 q.w tail hw,
  )

  pub length-rotation :
      (sensor_id : ℕ) (q : SlimeQuaternion)
      → IsWire (rotation_data sensor_id SensorDataType.normal q 0)
      → length (sb_body d (rotation_data sensor_id SensorDataType.normal q 0)) ≡ 19
  unfolding sb_body sensor_data_type_id
  length-rotation i q (hi, hq, hc) = omega (
    arith,
    length-put 1 i (put d 1 1 (put_quaternion d q (put d 1 0 []))) hi,
    length-put 1 1 (put_quaternion d q (put d 1 0 [])) (omega arith),
    length-put_quaternion q (put d 1 0 []) hq,
    length-put 1 0 [] (omega arith),
  )

  pub length-acceleration :
      (v : Triple) (sensor_id : ℕ)
      → IsWire (acceleration v sensor_id)
      → length (sb_body d (acceleration v sensor_id)) ≡ 13
  unfolding sb_body
  length-acceleration v i (hv, hi) =
      omega (arith, length-put_triple v (put d 1 i []) hv, length-put 1 i [] hi)
