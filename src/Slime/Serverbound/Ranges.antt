-- ===== src/Slime/Serverbound/Ranges.antt =====
-- The ranges of a packet's fields, and the enums that have no `UnknownVariant`.
use everything_imu.Prelude.{ℕ, ◌⊎◌, ◌<◌, ◌^◌, ◌≡◌, refl, some, arith, length}
use everything_imu.Slime.Boards.{BoardType, ImuType, McuType}
use everything_imu.Slime.Sensors.{
  SensorStatus, sensor_status_id, sensor_status_from_id, SensorDataType, sensor_data_type_id,
  sensor_data_type_from_id, ActionType, TrackerPosition, TrackerDataType, tracker_data_type_id,
  tracker_data_type_from_id,
}
use everything_imu.Slime.Strings.{SlimeString}
use everything_imu.Slime.Serverbound.{
  SlimeQuaternion, Triple, HandshakeBody, SensorInfoBody, SbPacket, heartbeat, handshake,
  acceleration, magnetometer, ping, battery_level, sensor_info, rotation_data, user_action,
  feature_flags, ack_config_change, bundle,
}

abbrev pub IsTriple : Triple → Type 0
IsTriple (x, y, z) = (x < 2 ^ 32) × (y < 2 ^ 32) × (z < 2 ^ 32)

abbrev pub IsQuaternion : SlimeQuaternion → Type 0
IsQuaternion q = (q.i < 2 ^ 32) × (q.j < 2 ^ 32) × (q.k < 2 ^ 32) × (q.w < 2 ^ 32)

-- The prefix of a string is its length.
abbrev pub IsString : SlimeString → Type 0
IsString s = (s.count < 256) × (length s.bytes ≡ s.count)

-- An id of `w` bytes that is none of those from `low` to `high`.
abbrev IsOther : ℕ → ℕ → ℕ → ℕ → Type 0
IsOther w low high id = (id < 256 ^ w) × ((id < low) ⊎ (high < id))

-- The enums with an `UnknownVariant`: the id in it is not a listed one. Every other variant is in range.
abbrev pub IsBoard : BoardType → Type 0
IsBoard (BoardType.unknown_variant id) = IsOther 4 0 18 id × ¬ (id ≡ 250)
IsBoard _ = Unit {0}

abbrev pub IsImu : ImuType → Type 0
IsImu (ImuType.unknown_variant id) = IsOther 1 0 18 id × ¬ (id ≡ 250)
IsImu _ = Unit {0}

abbrev pub IsMcu : McuType → Type 0
IsMcu (McuType.unknown_variant id) = IsOther 4 0 8 id × ¬ (id ≡ 250)
IsMcu _ = Unit {0}

abbrev pub IsAction : ActionType → Type 0
IsAction (ActionType.unknown_variant id) = IsOther 1 2 5 id
IsAction _ = Unit {0}

abbrev pub IsPosition : TrackerPosition → Type 0
IsPosition (TrackerPosition.unknown_variant id) = IsOther 1 0 12 id
IsPosition _ = Unit {0}

pub record IsHandshake (h : HandshakeBody) : Type 0 where
  pub board : IsBoard h.board
  pub imu : IsImu h.imu
  pub mcu : IsMcu h.mcu
  pub imu_info : IsTriple h.imu_info
  pub protocol_version : h.protocol_version < 2 ^ 32
  pub firmware : IsString h.firmware
  pub mac_address : length h.mac_address ≡ 6

pub record IsSensorInfo (s : SensorInfoBody) : Type 0 where
  pub sensor_id : s.sensor_id < 256
  pub sensor_type : IsImu s.sensor_type
  pub sensor_config : s.sensor_config < 65536
  pub rest_calibration : s.has_completed_rest_calibration < 256
  pub tracker_position : IsPosition s.tracker_position

-- Every field lies in the range of its Rust type.
abbrev pub IsWire : SbPacket → Type 0
IsWire (heartbeat tracker_id) = tracker_id < 256
IsWire (handshake h) = IsHandshake h
IsWire (acceleration vector sensor_id) = IsTriple vector × (sensor_id < 256)
IsWire (magnetometer sensor_id data_type vector calibration_info) =
    (sensor_id < 256) × IsTriple vector × (calibration_info < 256)
IsWire (ping challenge) = length challenge ≡ 4
IsWire (battery_level voltage_volts level) = (voltage_volts < 2 ^ 32) × (level < 2 ^ 32)
IsWire (sensor_info s) = IsSensorInfo s
IsWire (rotation_data sensor_id data_type quat calibration_info) =
    (sensor_id < 256) × IsQuaternion quat × (calibration_info < 256)
IsWire (user_action action) = IsAction action
IsWire (feature_flags flag_bytes) = Unit {0}
IsWire (ack_config_change sensor_id config_type) = (sensor_id < 256) × (config_type < 65536)
IsWire (bundle inner) = Unit {0}

pub data_type_lem :
    (t : SensorDataType)
    → (sensor_data_type_id t < 256) × (sensor_data_type_from_id (sensor_data_type_id t) ≡ some t)
unfolding sensor_data_type_id sensor_data_type_from_id
data_type_lem SensorDataType.normal = (omega arith, refl)
data_type_lem SensorDataType.correction = (omega arith, refl)

pub status_lem :
    (t : SensorStatus)
    → (sensor_status_id t < 256) × (sensor_status_from_id (sensor_status_id t) ≡ some t)
unfolding sensor_status_id sensor_status_from_id
status_lem SensorStatus.offline = (omega arith, refl)
status_lem SensorStatus.working = (omega arith, refl)

pub tracker_data_type_lem :
    (t : TrackerDataType)
    → (tracker_data_type_id t < 256) × (tracker_data_type_from_id (tracker_data_type_id t) ≡ some t)
unfolding tracker_data_type_id tracker_data_type_from_id
tracker_data_type_lem TrackerDataType.rotation = (omega arith, refl)
tracker_data_type_lem TrackerDataType.flex_resistance = (omega arith, refl)
tracker_data_type_lem TrackerDataType.flex_angle = (omega arith, refl)
