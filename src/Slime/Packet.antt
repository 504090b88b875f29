-- ===== src/Slime/Packet.antt =====
-- `Packet<D>` of crates/slime-tracker/src/lib.rs: `[u32 tag][u64 seq][body]`, big-endian.
pub mod Laws
use everything_imu.Prelude.{
  ℕ, List, [], ◌∷◌, ◌++◌, Option, none, some, Result, ok, err, ltb, if◌then◌else◌, length, drop,
}
use everything_imu.Slime.Errors.{
  SerializeError, buffer_too_small, DeserializeError, deku_read, bytes_remaining,
}
use everything_imu.Slime.Wire.{Deku, Reader, ◌>>=◌, return}

-- The traits that `Packet` asks of its body: `DekuEnumExt`, `DekuWriter` and `DekuReader`.
pub record PacketBody (D : Type 0) : Type 0 where
  pub deku_id : D → ℕ
  pub body : D → List ℕ
  pub read_body : ℕ → Reader D

pub record Packet (D : Type 0) : Type 0 where
  pub tag : ℕ
  pub seq : ℕ
  pub payload : D  -- the field `data`

module _ (d : Deku) {D : Type 0} (t : PacketBody D) where
  unfoldable pub new : ℕ → D → Packet D
  new seq payload = record { tag = t.deku_id payload; seq = seq; payload = payload }

  -- `to_bytes`: integers and byte arrays are written without errors.
  unfoldable pub to_bytes : Packet D → List ℕ
  to_bytes p = d.uint_bytes 4 p.tag ++ (d.uint_bytes 8 p.seq ++ t.body p.payload)

  -- Writes into `buf`: its new contents, and the number of bytes written.
  unfoldable pub serialize_into : Packet D → List ℕ → Result SerializeError (List ℕ × ℕ)
  serialize_into p buf =
      let bytes = to_bytes p in
      if ltb (length buf) (length bytes)
      then err buffer_too_small
      else ok (bytes ++ drop (length bytes) buf, length bytes)

  unfoldable pub read_packet : Reader (Packet D)
  read_packet = do
    tag ← d.read_uint 4
    seq ← d.read_uint 8
    payload ← t.read_body tag
    return (record { tag = tag; seq = seq; payload = payload })

  unfoldable pub deserialize_from : List ℕ → Result DeserializeError (Packet D)
  deserialize_from buf = elim (read_packet buf) [
    | none ↦ err deku_read
    | some (packet, []) ↦ ok packet
    | some (packet, b ∷ bs) ↦ err bytes_remaining
  ]

  unfoldable pub split : Packet D → ℕ × D
  split p = (p.seq, p.payload)
