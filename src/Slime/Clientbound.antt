-- ===== src/Slime/Clientbound.antt =====
-- `CbPacket` of crates/slime-tracker/src/clientbound.rs: the variants, their writer and reader.
pub mod RoundTrip
use everything_imu.Prelude.{ℕ, List, [], ◌∷◌, ◌++◌, ◌==◌, if◌then◌else◌}
use everything_imu.Slime.Wire.{Deku, Reader, ◌>>=◌, return, fail, read_bytes, read_all}

pub data CbPacket : Type 0 where
  discovery : CbPacket
  heartbeat : CbPacket
  ping : (challenge : List ℕ) → CbPacket
  feature_flags : (flag_bytes : List ℕ) → CbPacket
  set_config_flag : (sensor_id config_type state : ℕ) → CbPacket
  handshake_response : (payload : List ℕ) → CbPacket

unfoldable pub cb_id : CbPacket → ℕ
cb_id discovery = 0
cb_id heartbeat = 1
cb_id (ping _) = 10
cb_id (feature_flags _) = 22
cb_id (set_config_flag _ _ _) = 25
cb_id (handshake_response _) = 55076217

-- Bit numbers in the first flag byte of the server's reply.
abbrev pub protocol_bundle_support : ℕ
protocol_bundle_support = 0

abbrev pub protocol_bundle_compact_support : ℕ
protocol_bundle_compact_support = 1

module _ (d : Deku) where
  open d use {uint_bytes, read_uint}

  unfoldable pub cb_body : CbPacket → List ℕ
  cb_body discovery = []
  cb_body heartbeat = []
  cb_body (ping challenge) = challenge
  cb_body (feature_flags flag_bytes) = flag_bytes
  cb_body (set_config_flag sensor_id config_type state) =
      uint_bytes 1 sensor_id ++ (uint_bytes 2 config_type ++ (uint_bytes 1 state ++ []))
  cb_body (handshake_response payload) = payload

  read_set_config_flag : Reader CbPacket
  read_set_config_flag = do
    sensor_id ← read_uint 1
    config_type ← read_uint 2
    state ← read_uint 1
    return (set_config_flag sensor_id config_type state)

  unfoldable pub read_cb_body : ℕ → Reader CbPacket
  unfolding read_set_config_flag
  read_cb_body tag =
      if tag == 0
      then return discovery
      else if tag == 1
      then return heartbeat
      else if tag == 10
      then (do challenge ← read_bytes 4; return (ping challenge))
      else if tag == 22
      then (do flag_bytes ← read_all; return (feature_flags flag_bytes))
      else if tag == 25
      then read_set_config_flag
      else if tag == 55076217
      then (do payload ← read_all; return (handshake_response payload))
      else fail
