-- ===== src/Slime/Serverbound.antt =====
-- `SbPacket` of crates/slime-tracker/src/serverbound.rs: the fields in the order of the wire, the
-- writer and the reader that its `deku` attributes describe.
-- An `f32` or `i32` is its bit pattern, a number below 2 ^ 32.
pub mod Ranges
pub mod Enums
pub mod RoundTrip
pub mod Datagrams
use everything_imu.Prelude.{ℕ, List, [], ◌∷◌, ◌++◌, Option, none, some, ◌==◌, if◌then◌else◌, length}
use everything_imu.Slime.Wire.{
  Deku, Reader, ◌>>=◌, ◌>>◌, return, fail, or_fail, read_bytes, read_all,
}
use everything_imu.Slime.Boards.{
  BoardType, board_type_id, board_type_from_id, ImuType, imu_type_id, imu_type_from_id, McuType,
  mcu_type_id, mcu_type_from_id,
}
use everything_imu.Slime.Sensors.{
  SensorStatus, sensor_status_id, sensor_status_from_id, SensorDataType, sensor_data_type_id,
  sensor_data_type_from_id, ActionType, action_type_id, action_type_from_id, TrackerPosition,
  tracker_position_id, tracker_position_from_id, TrackerDataType, tracker_data_type_id,
  tracker_data_type_from_id,
}
use everything_imu.Slime.Strings.{SlimeString}

pub record SlimeQuaternion : Type 0 where
  pub i : ℕ
  pub j : ℕ
  pub k : ℕ
  pub w : ℕ

-- A tuple `(f32, f32, f32)` or `(i32, i32, i32)`.
abbrev pub Triple : Type 0
Triple = ℕ × ℕ × ℕ

pub record HandshakeBody : Type 0 where
  pub board : BoardType
  pub imu : ImuType
  pub mcu : McuType
  pub imu_info : Triple
  pub protocol_version : ℕ
  pub firmware : SlimeString
  pub mac_address : List ℕ

pub record SensorInfoBody : Type 0 where
  pub sensor_id : ℕ
  pub sensor_status : SensorStatus
  pub sensor_type : ImuType
  pub sensor_config : ℕ
  pub has_completed_rest_calibration : ℕ
  pub tracker_position : TrackerPosition
  pub tracker_data_type : TrackerDataType

pub data SbPacket : Type 0 where
  heartbeat : (tracker_id : ℕ) → SbPacket
  handshake : HandshakeBody → SbPacket
  acceleration : (vector : Triple) (sensor_id : ℕ) → SbPacket
  magnetometer :
      (sensor_id : ℕ) (data_type : SensorDataType) (vector : Triple) (calibration_info : ℕ)
      → SbPacket
  ping : (challenge : List ℕ) → SbPacket
  battery_level : (voltage_volts level : ℕ) → SbPacket
  sensor_info : SensorInfoBody → SbPacket
  rotation_data :
      (sensor_id : ℕ) (data_type : SensorDataType) (quat : SlimeQuaternion) (calibration_info : ℕ)
      → SbPacket
  user_action : ActionType → SbPacket
  feature_flags : (flag_bytes : List ℕ) → SbPacket
  ack_config_change : (sensor_id config_type : ℕ) → SbPacket
  bundle : (inner : List ℕ) → SbPacket

-- `deku_id()`: the id of each variant.
unfoldable pub sb_id : SbPacket → ℕ
sb_id (heartbeat _) = 0
sb_id (handshake _) = 3
sb_id (acceleration _ _) = 4
sb_id (magnetometer _ _ _ _) = 5
sb_id (ping _) = 10
sb_id (battery_level _ _) = 12
sb_id (sensor_info _) = 15
sb_id (rotation_data _ _ _ _) = 17
sb_id (user_action _) = 21
sb_id (feature_flags _) = 22
sb_id (ack_config_change _ _) = 24
sb_id (bundle _) = 100

module _ (d : Deku) where
  open d use {uint_bytes, read_uint}

  put : ℕ → ℕ → List ℕ → List ℕ
  put w x tail = uint_bytes w x ++ tail

  put_triple : Triple → List ℕ → List ℕ
  unfolding put
  put_triple (x, y, z) tail = put 4 x (put 4 y (put 4 z tail))

  put_quaternion : SlimeQuaternion → List ℕ → List ℕ
  unfolding put
  put_quaternion q tail = put 4 q.i (put 4 q.j (put 4 q.k (put 4 q.w tail)))

  put_string : SlimeString → List ℕ → List ℕ
  unfolding put
  put_string s tail = put 1 s.count (s.bytes ++ tail)

  -- `pad_bytes_before = "3"` stands in front of the IMU's type.
  put_handshake : HandshakeBody → List ℕ → List ℕ
  unfolding put put_triple put_string
  put_handshake h tail = put 4 (board_type_id h.board) (
      (0 ∷ 0 ∷ 0 ∷ [])
      ++ put 1 (imu_type_id h.imu) (
          put 4 (mcu_type_id h.mcu) (
            put_triple h.imu_info
              (put 4 h.protocol_version (put_string h.firmware (h.mac_address ++ tail))))))

  put_sensor_info : SensorInfoBody → List ℕ → List ℕ
  unfolding put
  put_sensor_info s tail = put 1 s.sensor_id (
      put 1 (sensor_status_id s.sensor_status) (
        put 1 (imu_type_id s.sensor_type) (
          put 2 s.sensor_config (
            put 1 s.has_completed_rest_calibration (
              put 1 (tracker_position_id s.tracker_position)
                (put 1 (tracker_data_type_id s.tracker_data_type) tail))))))

  -- The body of a packet, behind the tag and the sequence number.
  unfoldable pub sb_body : SbPacket → List ℕ
  unfolding put put_triple put_quaternion put_handshake put_sensor_info
  sb_body (heartbeat tracker_id) = put 1 tracker_id []
  sb_body (handshake h) = put_handshake h []
  sb_body (acceleration vector sensor_id) = put_triple vector (put 1 sensor_id [])
  sb_body (magnetometer sensor_id data_type vector calibration_info) =
      put 1 sensor_id
        (put 1 (sensor_data_type_id data_type) (put_triple vector (put 1 calibration_info [])))
  sb_body (ping challenge) = challenge
  sb_body (battery_level voltage_volts level) = put 4 voltage_volts (put 4 level [])
  sb_body (sensor_info s) = put_sensor_info s []
  sb_body (rotation_data sensor_id data_type quat calibration_info) =
      put 1 sensor_id
        (put 1 (sensor_data_type_id data_type) (put_quaternion quat (put 1 calibration_info [])))
  sb_body (user_action action) = put 1 (action_type_id action) []
  sb_body (feature_flags flag_bytes) = flag_bytes
  sb_body (ack_config_change sensor_id config_type) = put 1 sensor_id (put 2 config_type [])
  sb_body (bundle inner) = inner

  read_triple : Reader Triple
  read_triple = do x ← read_uint 4; y ← read_uint 4; z ← read_uint 4; return (x, y, z)

  read_quaternion : Reader SlimeQuaternion
  read_quaternion = do
    i ← read_uint 4
    j ← read_uint 4
    k ← read_uint 4
    w ← read_uint 4
    return (record { i = i; j = j; k = k; w = w })

  read_string : Reader SlimeString
  read_string = do
    count ← read_uint 1
    bytes ← read_bytes count
    return (record { count = count; bytes = bytes })

  read_data_type : Reader SensorDataType
  read_data_type = do id ← read_uint 1; or_fail (sensor_data_type_from_id id)

  read_handshake : Reader SbPacket
  unfolding read_triple read_string
  read_handshake = do
    board ← read_uint 4
    read_bytes 3
    imu ← read_uint 1
    mcu ← read_uint 4
    imu_info ← read_triple
    protocol_version ← read_uint 4
    firmware ← read_string
    mac_address ← read_bytes 6
    return (
        handshake (record {
          board = board_type_from_id board;
          imu = imu_type_from_id imu;
          mcu = mcu_type_from_id mcu;
          imu_info = imu_info;
          protocol_version = protocol_version;
          firmware = firmware;
          mac_address = mac_address;
        }))

  read_sensor_info : Reader SbPacket
  read_sensor_info = do
    sensor_id ← read_uint 1
    status_id ← read_uint 1
    sensor_status ← or_fail (sensor_status_from_id status_id)
    sensor_type ← read_uint 1
    sensor_config ← read_uint 2
    rest_calibration ← read_uint 1
    tracker_position ← read_uint 1
    data_type_id ← read_uint 1
    tracker_data_type ← or_fail (tracker_data_type_from_id data_type_id)
    return (
        sensor_info (record {
          sensor_id = sensor_id;
          sensor_status = sensor_status;
          sensor_type = imu_type_from_id sensor_type;
          sensor_config = sensor_config;
          has_completed_rest_calibration = rest_calibration;
          tracker_position = tracker_position_from_id tracker_position;
          tracker_data_type = tracker_data_type;
        }))

  read_acceleration : Reader SbPacket
  unfolding read_triple
  read_acceleration = do
    vector ← read_triple
    sensor_id ← read_uint 1
    return (acceleration vector sensor_id)

  read_magnetometer : Reader SbPacket
  unfolding read_triple read_data_type
  read_magnetometer = do
    sensor_id ← read_uint 1
    data_type ← read_data_type
    vector ← read_triple
    calibration_info ← read_uint 1
    return (magnetometer sensor_id data_type vector calibration_info)

  read_rotation_data : Reader SbPacket
  unfolding read_quaternion read_data_type
  read_rotation_data = do
    sensor_id ← read_uint 1
    data_type ← read_data_type
    quat ← read_quaternion
    calibration_info ← read_uint 1
    return (rotation_data sensor_id data_type quat calibration_info)

  read_battery_level : Reader SbPacket
  read_battery_level = do
    voltage_volts ← read_uint 4
    level ← read_uint 4
    return (battery_level voltage_volts level)

  read_ack_config_change : Reader SbPacket
  read_ack_config_change = do
    sensor_id ← read_uint 1
    config_type ← read_uint 2
    return (ack_config_change sensor_id config_type)

  -- The body of the variant that the tag names; no other tag is read.
  unfoldable pub read_sb_body : ℕ → Reader SbPacket
  unfolding read_handshake read_sensor_info read_acceleration read_magnetometer read_rotation_data
      read_battery_level read_ack_config_change
  read_sb_body tag =
      if tag == 0
      then (do tracker_id ← read_uint 1; return (heartbeat tracker_id))
      else if tag == 3
      then read_handshake
      else if tag == 4
      then read_acceleration
      else if tag == 5
      then read_magnetometer
      else if tag == 10
      then (do challenge ← read_bytes 4; return (ping challenge))
      else if tag == 12
      then read_battery_level
      else if tag == 15
      then read_sensor_info
      else if tag == 17
      then read_rotation_data
      else if tag == 21
      then (do action ← read_uint 1; return (user_action (action_type_from_id action)))
      else if tag == 22
      then (do flag_bytes ← read_all; return (feature_flags flag_bytes))
      else if tag == 24
      then read_ack_config_change
      else if tag == 100
      then (do inner ← read_all; return (bundle inner))
      else fail
