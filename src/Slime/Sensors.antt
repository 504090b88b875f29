-- ===== src/Slime/Sensors.antt =====
-- The sensor and tracker enums of crates/slime-tracker/src/serverbound.rs, with the ids of their
-- `deku` attributes. An enum without `id_pat = "_"` refuses any other id.
use everything_imu.Prelude.{ℕ, Option, some, none, ◌==◌, if◌then◌else◌}

-- The connection state of a sensor. `working` is `Ok`.
pub data SensorStatus : Type 0 where
  offline : SensorStatus
  working : SensorStatus

unfoldable pub sensor_status_id : SensorStatus → ℕ
sensor_status_id SensorStatus.offline = 0
sensor_status_id SensorStatus.working = 1

unfoldable pub sensor_status_from_id : ℕ → Option SensorStatus
sensor_status_from_id id =
    if id == 0
    then some SensorStatus.offline
    else if id == 1
    then some SensorStatus.working
    else none

-- How a rotation or magnetometer payload is read.
pub data SensorDataType : Type 0 where
  normal : SensorDataType
  correction : SensorDataType

unfoldable pub sensor_data_type_id : SensorDataType → ℕ
sensor_data_type_id SensorDataType.normal = 1
sensor_data_type_id SensorDataType.correction = 2

unfoldable pub sensor_data_type_from_id : ℕ → Option SensorDataType
sensor_data_type_from_id id =
    if id == 1
    then some SensorDataType.normal
    else if id == 2
    then some SensorDataType.correction
    else none

-- A button event of the user.
pub data ActionType : Type 0 where
  reset_full : ActionType
  reset_yaw : ActionType
  reset_mounting : ActionType
  pause_tracking : ActionType
  unknown_variant : ℕ → ActionType

unfoldable pub action_type_id : ActionType → ℕ
action_type_id ActionType.reset_full = 2
action_type_id ActionType.reset_yaw = 3
action_type_id ActionType.reset_mounting = 4
action_type_id ActionType.pause_tracking = 5
action_type_id (ActionType.unknown_variant id) = id

unfoldable pub action_type_from_id : ℕ → ActionType
action_type_from_id id =
    if id == 2
    then ActionType.reset_full
    else if id == 3
    then ActionType.reset_yaw
    else if id == 4
    then ActionType.reset_mounting
    else if id == 5
    then ActionType.pause_tracking
    else ActionType.unknown_variant id

-- The body position of a tracker. `no_position` is `None`.
pub data TrackerPosition : Type 0 where
  no_position : TrackerPosition
  head : TrackerPosition
  neck : TrackerPosition
  upper_chest : TrackerPosition
  chest : TrackerPosition
  waist : TrackerPosition
  hip : TrackerPosition
  left_upper_leg : TrackerPosition
  right_upper_leg : TrackerPosition
  left_lower_leg : TrackerPosition
  right_lower_leg : TrackerPosition
  left_foot : TrackerPosition
  right_foot : TrackerPosition
  unknown_variant : ℕ → TrackerPosition

unfoldable pub tracker_position_id : TrackerPosition → ℕ
tracker_position_id TrackerPosition.no_position = 0
tracker_position_id TrackerPosition.head = 1
tracker_position_id TrackerPosition.neck = 2
tracker_position_id TrackerPosition.upper_chest = 3
tracker_position_id TrackerPosition.chest = 4
tracker_position_id TrackerPosition.waist = 5
tracker_position_id TrackerPosition.hip = 6
tracker_position_id TrackerPosition.left_upper_leg = 7
tracker_position_id TrackerPosition.right_upper_leg = 8
tracker_position_id TrackerPosition.left_lower_leg = 9
tracker_position_id TrackerPosition.right_lower_leg = 10
tracker_position_id TrackerPosition.left_foot = 11
tracker_position_id TrackerPosition.right_foot = 12
tracker_position_id (TrackerPosition.unknown_variant id) = id

unfoldable pub tracker_position_from_id : ℕ → TrackerPosition
tracker_position_from_id id =
    if id == 0
    then TrackerPosition.no_position
    else if id == 1
    then TrackerPosition.head
    else if id == 2
    then TrackerPosition.neck
    else if id == 3
    then TrackerPosition.upper_chest
    else if id == 4
    then TrackerPosition.chest
    else if id == 5
    then TrackerPosition.waist
    else if id == 6
    then TrackerPosition.hip
    else if id == 7
    then TrackerPosition.left_upper_leg
    else if id == 8
    then TrackerPosition.right_upper_leg
    else if id == 9
    then TrackerPosition.left_lower_leg
    else if id == 10
    then TrackerPosition.right_lower_leg
    else if id == 11
    then TrackerPosition.left_foot
    else if id == 12
    then TrackerPosition.right_foot
    else TrackerPosition.unknown_variant id

-- What a tracker measures.
pub data TrackerDataType : Type 0 where
  rotation : TrackerDataType
  flex_resistance : TrackerDataType
  flex_angle : TrackerDataType

unfoldable pub tracker_data_type_id : TrackerDataType → ℕ
tracker_data_type_id TrackerDataType.rotation = 0
tracker_data_type_id TrackerDataType.flex_resistance = 1
tracker_data_type_id TrackerDataType.flex_angle = 2

unfoldable pub tracker_data_type_from_id : ℕ → Option TrackerDataType
tracker_data_type_from_id id =
    if id == 0
    then some TrackerDataType.rotation
    else if id == 1
    then some TrackerDataType.flex_resistance
    else if id == 2
    then some TrackerDataType.flex_angle
    else none
