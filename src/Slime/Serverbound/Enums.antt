-- ===== src/Slime/Serverbound/Enums.antt =====
-- Every variant of the enums with an `UnknownVariant` is written as an id that is read back as it.
use everything_imu.Prelude.{◌<◌, ◌^◌, ◌≡◌, refl, arith}
use everything_imu.Slime.Boards.{
  BoardType, board_type_id, board_type_from_id, ImuType, imu_type_id, imu_type_from_id, McuType,
  mcu_type_id, mcu_type_from_id,
}
use everything_imu.Slime.Sensors.{
  ActionType, action_type_id, action_type_from_id, TrackerPosition, tracker_position_id,
  tracker_position_from_id,
}
use everything_imu.Slime.Serverbound.Ranges.{IsBoard, IsImu, IsMcu, IsAction, IsPosition}

pub board_type_lem :
    (x : BoardType)
    → IsBoard x
    → (board_type_id x < 256 ^ 4) × (board_type_from_id (board_type_id x) ≡ x)
unfolding board_type_id board_type_from_id
board_type_lem (BoardType.unknown_variant id) h = ground (arith, h)
board_type_lem BoardType.unknown h = (omega arith, refl)
board_type_lem BoardType.slime_vr_legacy h = (omega arith, refl)
board_type_lem BoardType.slime_vr_dev h = (omega arith, refl)
board_type_lem BoardType.node_mcu h = (omega arith, refl)
board_type_lem BoardType.custom h = (omega arith, refl)
board_type_lem BoardType.wroom32 h = (omega arith, refl)
board_type_lem BoardType.wemos_d1_mini h = (omega arith, refl)
board_type_lem BoardType.ttgo_t_base h = (omega arith, refl)
board_type_lem BoardType.esp01 h = (omega arith, refl)
board_type_lem BoardType.slime_vr h = (omega arith, refl)
board_type_lem BoardType.lolin_c3_mini h = (omega arith, refl)
board_type_lem BoardType.beetle32_c3 h = (omega arith, refl)
board_type_lem BoardType.esp32_c3_dev_kit_m1 h = (omega arith, refl)
board_type_lem BoardType.third_party_android h = (omega arith, refl)
board_type_lem BoardType.wrangler h = (omega arith, refl)
board_type_lem BoardType.mocopi h = (omega arith, refl)
board_type_lem BoardType.wemos_wroom02 h = (omega arith, refl)
board_type_lem BoardType.xiao_esp32_c3 h = (omega arith, refl)
board_type_lem BoardType.haritora h = (omega arith, refl)
board_type_lem BoardType.dev_reserved h = (omega arith, refl)

pub imu_type_lem :
    (x : ImuType) → IsImu x → (imu_type_id x < 256 ^ 1) × (imu_type_from_id (imu_type_id x) ≡ x)
unfolding imu_type_id imu_type_from_id
imu_type_lem (ImuType.unknown_variant id) h = ground (arith, h)
imu_type_lem ImuType.unknown h = (omega arith, refl)
imu_type_lem ImuType.mpu9250 h = (omega arith, refl)
imu_type_lem ImuType.mpu6500 h = (omega arith, refl)
imu_type_lem ImuType.bno080 h = (omega arith, refl)
imu_type_lem ImuType.bno085 h = (omega arith, refl)
imu_type_lem ImuType.bno055 h = (omega arith, refl)
imu_type_lem ImuType.mpu6050 h = (omega arith, refl)
imu_type_lem ImuType.bno086 h = (omega arith, refl)
imu_type_lem ImuType.bmi160 h = (omega arith, refl)
imu_type_lem ImuType.icm20948 h = (omega arith, refl)
imu_type_lem ImuType.icm42688 h = (omega arith, refl)
imu_type_lem ImuType.bmi270 h = (omega arith, refl)
imu_type_lem ImuType.lsm6ds3trc h = (omega arith, refl)
imu_type_lem ImuType.lsm6dsv h = (omega arith, refl)
imu_type_lem ImuType.lsm6dso h = (omega arith, refl)
imu_type_lem ImuType.lsm6dsr h = (omega arith, refl)
imu_type_lem ImuType.icm45686 h = (omega arith, refl)
imu_type_lem ImuType.icm45605 h = (omega arith, refl)
imu_type_lem ImuType.adc_resistance h = (omega arith, refl)
imu_type_lem ImuType.dev_reserved h = (omega arith, refl)

pub mcu_type_lem :
    (x : McuType) → IsMcu x → (mcu_type_id x < 256 ^ 4) × (mcu_type_from_id (mcu_type_id x) ≡ x)
unfolding mcu_type_id mcu_type_from_id
mcu_type_lem (McuType.unknown_variant id) h = ground (arith, h)
mcu_type_lem McuType.unknown h = (omega arith, refl)
mcu_type_lem McuType.esp8266 h = (omega arith, refl)
mcu_type_lem McuType.esp32 h = (omega arith, refl)
mcu_type_lem McuType.third_party_android h = (omega arith, refl)
mcu_type_lem McuType.wrangler h = (omega arith, refl)
mcu_type_lem McuType.third_party_ios h = (omega arith, refl)
mcu_type_lem McuType.esp32_c3 h = (omega arith, refl)
mcu_type_lem McuType.mocopi h = (omega arith, refl)
mcu_type_lem McuType.haritora h = (omega arith, refl)
mcu_type_lem McuType.dev_reserved h = (omega arith, refl)

pub action_type_lem :
    (x : ActionType)
    → IsAction x
    → (action_type_id x < 256 ^ 1) × (action_type_from_id (action_type_id x) ≡ x)
unfolding action_type_id action_type_from_id
action_type_lem (ActionType.unknown_variant id) h = ground (arith, h)
action_type_lem ActionType.reset_full h = (omega arith, refl)
action_type_lem ActionType.reset_yaw h = (omega arith, refl)
action_type_lem ActionType.reset_mounting h = (omega arith, refl)
action_type_lem ActionType.pause_tracking h = (omega arith, refl)

pub tracker_position_lem :
    (x : TrackerPosition)
    → IsPosition x
    → (tracker_position_id x < 256 ^ 1) × (tracker_position_from_id (tracker_position_id x) ≡ x)
unfolding tracker_position_id tracker_position_from_id
tracker_position_lem (TrackerPosition.unknown_variant id) h = ground (arith, h)
tracker_position_lem TrackerPosition.no_position h = (omega arith, refl)
tracker_position_lem TrackerPosition.head h = (omega arith, refl)
tracker_position_lem TrackerPosition.neck h = (omega arith, refl)
tracker_position_lem TrackerPosition.upper_chest h = (omega arith, refl)
tracker_position_lem TrackerPosition.chest h = (omega arith, refl)
tracker_position_lem TrackerPosition.waist h = (omega arith, refl)
tracker_position_lem TrackerPosition.hip h = (omega arith, refl)
tracker_position_lem TrackerPosition.left_upper_leg h = (omega arith, refl)
tracker_position_lem TrackerPosition.right_upper_leg h = (omega arith, refl)
tracker_position_lem TrackerPosition.left_lower_leg h = (omega arith, refl)
tracker_position_lem TrackerPosition.right_lower_leg h = (omega arith, refl)
tracker_position_lem TrackerPosition.left_foot h = (omega arith, refl)
tracker_position_lem TrackerPosition.right_foot h = (omega arith, refl)
