-- ===== src/Slime/Boards.antt =====
-- The hardware enums of crates/slime-tracker/src/serverbound.rs, with the ids of their `deku`
-- attributes. `id_pat = "_"` keeps any other id in `UnknownVariant`.
use everything_imu.Prelude.{ℕ, ◌==◌, if◌then◌else◌}

-- The board design of a tracker.
pub data BoardType : Type 0 where
  unknown : BoardType
  slime_vr_legacy : BoardType
  slime_vr_dev : BoardType
  node_mcu : BoardType
  custom : BoardType
  wroom32 : BoardType
  wemos_d1_mini : BoardType
  ttgo_t_base : BoardType
  esp01 : BoardType
  slime_vr : BoardType
  lolin_c3_mini : BoardType
  beetle32_c3 : BoardType
  esp32_c3_dev_kit_m1 : BoardType
  third_party_android : BoardType
  wrangler : BoardType
  mocopi : BoardType
  wemos_wroom02 : BoardType
  xiao_esp32_c3 : BoardType
  haritora : BoardType
  dev_reserved : BoardType
  unknown_variant : ℕ → BoardType

unfoldable pub board_type_id : BoardType → ℕ
board_type_id BoardType.unknown = 0
board_type_id BoardType.slime_vr_legacy = 1
board_type_id BoardType.slime_vr_dev = 2
board_type_id BoardType.node_mcu = 3
board_type_id BoardType.custom = 4
board_type_id BoardType.wroom32 = 5
board_type_id BoardType.wemos_d1_mini = 6
board_type_id BoardType.ttgo_t_base = 7
board_type_id BoardType.esp01 = 8
board_type_id BoardType.slime_vr = 9
board_type_id BoardType.lolin_c3_mini = 10
board_type_id BoardType.beetle32_c3 = 11
board_type_id BoardType.esp32_c3_dev_kit_m1 = 12
board_type_id BoardType.third_party_android = 13
board_type_id BoardType.wrangler = 14
board_type_id BoardType.mocopi = 15
board_type_id BoardType.wemos_wroom02 = 16
board_type_id BoardType.xiao_esp32_c3 = 17
board_type_id BoardType.haritora = 18
board_type_id BoardType.dev_reserved = 250
board_type_id (BoardType.unknown_variant id) = id

unfoldable pub board_type_from_id : ℕ → BoardType
board_type_from_id id =
    if id == 0
    then BoardType.unknown
    else if id == 1
    then BoardType.slime_vr_legacy
    else if id == 2
    then BoardType.slime_vr_dev
    else if id == 3
    then BoardType.node_mcu
    else if id == 4
    then BoardType.custom
    else if id == 5
    then BoardType.wroom32
    else if id == 6
    then BoardType.wemos_d1_mini
    else if id == 7
    then BoardType.ttgo_t_base
    else if id == 8
    then BoardType.esp01
    else if id == 9
    then BoardType.slime_vr
    else if id == 10
    then BoardType.lolin_c3_mini
    else if id == 11
    then BoardType.beetle32_c3
    else if id == 12
    then BoardType.esp32_c3_dev_kit_m1
    else if id == 13
    then BoardType.third_party_android
    else if id == 14
    then BoardType.wrangler
    else if id == 15
    then BoardType.mocopi
    else if id == 16
    then BoardType.wemos_wroom02
    else if id == 17
    then BoardType.xiao_esp32_c3
    else if id == 18
    then BoardType.haritora
    else if id == 250
    then BoardType.dev_reserved
    else BoardType.unknown_variant id

-- The IMU chip in use.
pub data ImuType : Type 0 where
  unknown : ImuType
  mpu9250 : ImuType
  mpu6500 : ImuType
  bno080 : ImuType
  bno085 : ImuType
  bno055 : ImuType
  mpu6050 : ImuType
  bno086 : ImuType
  bmi160 : ImuType
  icm20948 : ImuType
  icm42688 : ImuType
  bmi270 : ImuType
  lsm6ds3trc : ImuType
  lsm6dsv : ImuType
  lsm6dso : ImuType
  lsm6dsr : ImuType
  icm45686 : ImuType
  icm45605 : ImuType
  adc_resistance : ImuType
  dev_reserved : ImuType
  unknown_variant : ℕ → ImuType

unfoldable pub imu_type_id : ImuType → ℕ
imu_type_id ImuType.unknown = 0
imu_type_id ImuType.mpu9250 = 1
imu_type_id ImuType.mpu6500 = 2
imu_type_id ImuType.bno080 = 3
imu_type_id ImuType.bno085 = 4
imu_type_id ImuType.bno055 = 5
imu_type_id ImuType.mpu6050 = 6
imu_type_id ImuType.bno086 = 7
imu_type_id ImuType.bmi160 = 8
imu_type_id ImuType.icm20948 = 9
imu_type_id ImuType.icm42688 = 10
imu_type_id ImuType.bmi270 = 11
imu_type_id ImuType.lsm6ds3trc = 12
imu_type_id ImuType.lsm6dsv = 13
imu_type_id ImuType.lsm6dso = 14
imu_type_id ImuType.lsm6dsr = 15
imu_type_id ImuType.icm45686 = 16
imu_type_id ImuType.icm45605 = 17
imu_type_id ImuType.adc_resistance = 18
imu_type_id ImuType.dev_reserved = 250
imu_type_id (ImuType.unknown_variant id) = id

unfoldable pub imu_type_from_id : ℕ → ImuType
imu_type_from_id id =
    if id == 0
    then ImuType.unknown
    else if id == 1
    then ImuType.mpu9250
    else if id == 2
    then ImuType.mpu6500
    else if id == 3
    then ImuType.bno080
    else if id == 4
    then ImuType.bno085
    else if id == 5
    then ImuType.bno055
    else if id == 6
    then ImuType.mpu6050
    else if id == 7
    then ImuType.bno086
    else if id == 8
    then ImuType.bmi160
    else if id == 9
    then ImuType.icm20948
    else if id == 10
    then ImuType.icm42688
    else if id == 11
    then ImuType.bmi270
    else if id == 12
    then ImuType.lsm6ds3trc
    else if id == 13
    then ImuType.lsm6dsv
    else if id == 14
    then ImuType.lsm6dso
    else if id == 15
    then ImuType.lsm6dsr
    else if id == 16
    then ImuType.icm45686
    else if id == 17
    then ImuType.icm45605
    else if id == 18
    then ImuType.adc_resistance
    else if id == 250
    then ImuType.dev_reserved
    else ImuType.unknown_variant id

-- The family of the microcontroller.
pub data McuType : Type 0 where
  unknown : McuType
  esp8266 : McuType
  esp32 : McuType
  third_party_android : McuType
  wrangler : McuType
  third_party_ios : McuType
  esp32_c3 : McuType
  mocopi : McuType
  haritora : McuType
  dev_reserved : McuType
  unknown_variant : ℕ → McuType

unfoldable pub mcu_type_id : McuType → ℕ
mcu_type_id McuType.unknown = 0
mcu_type_id McuType.esp8266 = 1
mcu_type_id McuType.esp32 = 2
mcu_type_id McuType.third_party_android = 3
mcu_type_id McuType.wrangler = 4
mcu_type_id McuType.third_party_ios = 5
mcu_type_id McuType.esp32_c3 = 6
mcu_type_id McuType.mocopi = 7
mcu_type_id McuType.haritora = 8
mcu_type_id McuType.dev_reserved = 250
mcu_type_id (McuType.unknown_variant id) = id

unfoldable pub mcu_type_from_id : ℕ → McuType
mcu_type_from_id id =
    if id == 0
    then McuType.unknown
    else if id == 1
    then McuType.esp8266
    else if id == 2
    then McuType.esp32
    else if id == 3
    then McuType.third_party_android
    else if id == 4
    then McuType.wrangler
    else if id == 5
    then McuType.third_party_ios
    else if id == 6
    then McuType.esp32_c3
    else if id == 7
    then McuType.mocopi
    else if id == 8
    then McuType.haritora
    else if id == 250
    then McuType.dev_reserved
    else McuType.unknown_variant id
