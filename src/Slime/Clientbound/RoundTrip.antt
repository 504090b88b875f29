-- ===== src/Slime/Clientbound/RoundTrip.antt =====
-- Client-bound packets as datagrams.
use everything_imu.Prelude.{ℕ, ◌<◌, ◌^◌, ◌≡◌, refl, [], some, ok, arith, length, append-nil}
use everything_imu.Slime.Wire.{Deku, >>=_step, read_bytes_lem, read_uint-uint_bytes, read_all}
use everything_imu.Slime.Packet.{PacketBody, new, to_bytes, deserialize_from}
use everything_imu.Slime.Packet.Laws.{deserialize_from-to_bytes}
use everything_imu.Slime.Clientbound.{
  CbPacket, discovery, heartbeat, ping, feature_flags, set_config_flag, handshake_response, cb_id,
  cb_body, read_cb_body,
}

-- Every field lies in the range of its Rust type.
abbrev pub IsWire : CbPacket → Type 0
IsWire (ping challenge) = length challenge ≡ 4
IsWire (set_config_flag sensor_id config_type state) =
    (sensor_id < 256) × (config_type < 65536) × (state < 256)
IsWire _ = Unit {0}

module _ (d : Deku) where
  abbrev pub cb_packet_body : PacketBody CbPacket
  cb_packet_body = record { deku_id = cb_id; body = cb_body d; read_body = read_cb_body d }

  read_cb_body-cb_body :
      (p : CbPacket) → IsWire p → read_cb_body d (cb_id p) (cb_body d p) ≡ some (p, [])
  unfolding read_cb_body cb_body cb_id
  read_cb_body-cb_body discovery h = refl
  read_cb_body-cb_body heartbeat h = refl
  read_cb_body-cb_body (ping c) h =
      >>=_step _ _ (rw (append-nil c, h) at (read_bytes_lem c [])) refl
  read_cb_body-cb_body (feature_flags f) h = >>=_step read_all _ {bs = f} refl refl
  read_cb_body-cb_body (set_config_flag s c t) (hs, hc, ht) =
      >>=_step _ _ (read_uint-uint_bytes d 1 s _ hs) (
        >>=_step _ _ (read_uint-uint_bytes d 2 c _ hc)
          (>>=_step _ _ (read_uint-uint_bytes d 1 t [] ht) refl))
  read_cb_body-cb_body (handshake_response r) h = >>=_step read_all _ {bs = r} refl refl

  cb_id-lt : (p : CbPacket) → cb_id p < 2 ^ 32
  unfolding cb_id
  cb_id-lt discovery = omega arith
  cb_id-lt _ = omega arith

  -- A client-bound datagram that was written, with a `u64` sequence number and fields in the ranges
  -- of their Rust types, is read back whole.
  pub deserialize_from-cb :
      (seq : ℕ) (p : CbPacket)
      → seq < 2 ^ 64
      → IsWire p
      → deserialize_from d cb_packet_body (to_bytes d cb_packet_body (new d cb_packet_body seq p))
        ≡ ok (new d cb_packet_body seq p)
  deserialize_from-cb seq p hs hp =
      deserialize_from-to_bytes d cb_packet_body seq p (cb_id-lt p) hs (read_cb_body-cb_body p hp)
