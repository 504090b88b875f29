-- ===== src/Slime/Serverbound/RoundTrip.antt =====
-- Reading the body that was written gives the packet back, variant by variant.
use everything_imu.Prelude.{ℕ, ◌≡◌, refl, List, [], ◌∷◌, ◌++◌, some, append-nil, length}
use everything_imu.Slime.Wire.{
  Deku, >>=_step, >>_step, read_bytes, read_bytes_lem, or_fail_lem, read_uint-uint_bytes, read_all,
}
use everything_imu.Slime.Boards.{board_type_id, imu_type_id, mcu_type_id}
use everything_imu.Slime.Sensors.{
  sensor_status_id, SensorDataType, sensor_data_type_id, action_type_id, tracker_position_id,
  tracker_data_type_id,
}
use everything_imu.Slime.Strings.{SlimeString}
use everything_imu.Slime.Serverbound.Ranges.{
  IsTriple, IsQuaternion, IsString, IsHandshake, IsSensorInfo, IsWire, data_type_lem, status_lem,
  tracker_data_type_lem,
}
use everything_imu.Slime.Serverbound.{
  SlimeQuaternion, Triple, HandshakeBody, SensorInfoBody, SbPacket, heartbeat, handshake,
  acceleration, magnetometer, ping, battery_level, sensor_info, rotation_data, user_action,
  feature_flags, ack_config_change, bundle, sb_id, sb_body, read_sb_body, read_triple,
  read_quaternion, read_string, read_data_type, put, put_triple, put_quaternion, put_string,
  put_handshake, put_sensor_info, read_handshake, read_sensor_info,
}
use everything_imu.Slime.Serverbound.Enums.{
  board_type_lem, imu_type_lem, mcu_type_lem, action_type_lem, tracker_position_lem,
}

module _ (d : Deku) where
  triple_lem :
      (t : Triple) (tail : List ℕ)
      → IsTriple t
      → read_triple d (put_triple d t tail) ≡ some (t, tail)
  unfolding read_triple put_triple
  triple_lem (x, y, z) tail (hx, hy, hz) = >>=_step _ _ (read_uint-uint_bytes d 4 x _ hx) (
      >>=_step _ _ (read_uint-uint_bytes d 4 y _ hy)
        (>>=_step _ _ (read_uint-uint_bytes d 4 z _ hz) refl))

  data_type_read :
      (t : SensorDataType) (tail : List ℕ)
      → read_data_type d (put d 1 (sensor_data_type_id t) tail) ≡ some (t, tail)
  unfolding read_data_type put
  data_type_read t tail =
      let (h, e) = data_type_lem t in
      >>=_step _ _ (read_uint-uint_bytes d 1 (sensor_data_type_id t) tail h) (rw e)

  quaternion_lem :
      (q : SlimeQuaternion) (tail : List ℕ)
      → IsQuaternion q
      → read_quaternion d (put_quaternion d q tail) ≡ some (q, tail)
  unfolding read_quaternion put_quaternion
  quaternion_lem q tail (hi, hj, hk, hw) = >>=_step _ _ (read_uint-uint_bytes d 4 q.i _ hi) (
      >>=_step _ _ (read_uint-uint_bytes d 4 q.j _ hj) (
        >>=_step _ _ (read_uint-uint_bytes d 4 q.k _ hk)
          (>>=_step _ _ (read_uint-uint_bytes d 4 q.w _ hw) refl)))

  string_lem :
      (s : SlimeString) (tail : List ℕ)
      → IsString s
      → read_string d (put_string d s tail) ≡ some (s, tail)
  unfolding read_string put_string
  string_lem s tail (h, n) =
      >>=_step _ _ (read_uint-uint_bytes d 1 s.count _ h)
        (>>=_step _ _ (rw (← n) (read_bytes_lem s.bytes tail)) refl)

  sized_bytes :
      (n : ℕ) (xs rest : List ℕ) → length xs ≡ n → read_bytes n (xs ++ rest) ≡ some (xs, rest)
  sized_bytes n xs rest e = rw (← e) (read_bytes_lem xs rest)

  handshake_lem :
      (h : HandshakeBody)
      → IsHandshake h
      → read_handshake d (put_handshake d h []) ≡ some (handshake h, [])
  unfolding read_handshake put_handshake put
  handshake_lem h r =
      let (board, board_e) = board_type_lem h.board r.board in
      let (imu, imu_e) = imu_type_lem h.imu r.imu in
      let (mcu, mcu_e) = mcu_type_lem h.mcu r.mcu in
      >>=_step _ _ (read_uint-uint_bytes d 4 (board_type_id h.board) _ board) (
        >>_step _ _ (read_bytes_lem (0 ∷ 0 ∷ 0 ∷ []) _) (
          >>=_step _ _ (read_uint-uint_bytes d 1 (imu_type_id h.imu) _ imu) (
            >>=_step _ _ (read_uint-uint_bytes d 4 (mcu_type_id h.mcu) _ mcu) (
              >>=_step _ _ (triple_lem h.imu_info _ r.imu_info) (
                >>=_step _ _ (read_uint-uint_bytes d 4 h.protocol_version _ r.protocol_version) (
                  >>=_step _ _ (string_lem h.firmware _ r.firmware) (
                    >>=_step _ _ (sized_bytes 6 h.mac_address [] r.mac_address)
                      (rw (board_e, imu_e, mcu_e)))))))))

  sensor_info_lem :
      (s : SensorInfoBody)
      → IsSensorInfo s
      → read_sensor_info d (put_sensor_info d s []) ≡ some (sensor_info s, [])
  unfolding read_sensor_info put_sensor_info put
  sensor_info_lem s r =
      let (status, status_e) = status_lem s.sensor_status in
      let (sensor_type, sensor_type_e) = imu_type_lem s.sensor_type r.sensor_type in
      let (position, position_e) = tracker_position_lem s.tracker_position r.tracker_position in
      let (data_type, data_type_e) = tracker_data_type_lem s.tracker_data_type in
      >>=_step _ _ (read_uint-uint_bytes d 1 s.sensor_id _ r.sensor_id) (
        >>=_step _ _ (read_uint-uint_bytes d 1 (sensor_status_id s.sensor_status) _ status) (
          >>=_step _ _ (or_fail_lem _ _ status_e) (
            >>=_step _ _ (read_uint-uint_bytes d 1 (imu_type_id s.sensor_type) _ sensor_type) (
              >>=_step _ _ (read_uint-uint_bytes d 2 s.sensor_config _ r.sensor_config) (
                >>=_step _ _
                  (read_uint-uint_bytes d 1 s.has_completed_rest_calibration _ r.rest_calibration)
                  (>>=_step _ _
                    (read_uint-uint_bytes d 1 (tracker_position_id s.tracker_position) _ position)
                    (>>=_step _ _
                      (read_uint-uint_bytes d 1 (tracker_data_type_id s.tracker_data_type) []
                        data_type)
                      (>>=_step _ _ (or_fail_lem _ _ data_type_e)
                        (rw (sensor_type_e, position_e))))))))))

  -- The reader of a variant's tag reads the body of that variant, and nothing is left over.
  pub read_sb_body-sb_body :
      (p : SbPacket) → IsWire p → read_sb_body d (sb_id p) (sb_body d p) ≡ some (p, [])
  unfolding read_sb_body sb_body sb_id
  read_sb_body-sb_body (heartbeat t) h = >>=_step _ _ (read_uint-uint_bytes d 1 t [] h) refl
  read_sb_body-sb_body (handshake b) h = handshake_lem b h
  read_sb_body-sb_body (acceleration v s) (hv, hs) =
      >>=_step _ _ (triple_lem v _ hv) (>>=_step _ _ (read_uint-uint_bytes d 1 s [] hs) refl)
  read_sb_body-sb_body (magnetometer s t v c) (hs, hv, hc) =
      >>=_step _ _ (read_uint-uint_bytes d 1 s _ hs) (
        >>=_step _ _ (data_type_read t _)
          (>>=_step _ _ (triple_lem v _ hv) (>>=_step _ _ (read_uint-uint_bytes d 1 c [] hc) refl)))
  read_sb_body-sb_body (ping c) h = >>=_step _ _ (rw (append-nil c) at (sized_bytes 4 c [] h)) refl
  read_sb_body-sb_body (battery_level v l) (hv, hl) =
      >>=_step _ _ (read_uint-uint_bytes d 4 v _ hv)
        (>>=_step _ _ (read_uint-uint_bytes d 4 l [] hl) refl)
  read_sb_body-sb_body (sensor_info s) h = sensor_info_lem s h
  read_sb_body-sb_body (rotation_data s t q c) (hs, hq, hc) =
      >>=_step _ _ (read_uint-uint_bytes d 1 s _ hs) (
        >>=_step _ _ (data_type_read t _) (
          >>=_step _ _ (quaternion_lem q _ hq)
            (>>=_step _ _ (read_uint-uint_bytes d 1 c [] hc) refl)))
  read_sb_body-sb_body (user_action a) r =
      let (h, e) = action_type_lem a r in
      >>=_step _ _ (read_uint-uint_bytes d 1 (action_type_id a) [] h) (rw e)
  read_sb_body-sb_body (feature_flags f) h = >>=_step read_all _ {bs = f} refl refl
  read_sb_body-sb_body (ack_config_change s c) (hs, hc) =
      >>=_step _ _ (read_uint-uint_bytes d 1 s _ hs)
        (>>=_step _ _ (read_uint-uint_bytes d 2 c [] hc) refl)
  read_sb_body-sb_body (bundle i) h = >>=_step read_all _ {bs = i} refl refl
