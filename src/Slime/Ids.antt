-- ===== src/Slime/Ids.antt =====
-- The ids of the enums with an `UnknownVariant` of crates/slime-tracker/src/serverbound.rs.
use everything_imu.Prelude.{ℕ, ◌≡◌, arith}
use everything_imu.Slime.Boards.{
  board_type_id, board_type_from_id, imu_type_id, imu_type_from_id, mcu_type_id, mcu_type_from_id,
}
use everything_imu.Slime.Sensors.{
  action_type_id, action_type_from_id, tracker_position_id, tracker_position_from_id,
}

board_type_id-from_id : (n : ℕ) → board_type_id (board_type_from_id n) ≡ n
unfolding board_type_id board_type_from_id
board_type_id-from_id n = ground arith

imu_type_id-from_id : (n : ℕ) → imu_type_id (imu_type_from_id n) ≡ n
unfolding imu_type_id imu_type_from_id
imu_type_id-from_id n = ground arith

mcu_type_id-from_id : (n : ℕ) → mcu_type_id (mcu_type_from_id n) ≡ n
unfolding mcu_type_id mcu_type_from_id
mcu_type_id-from_id n = ground arith

action_type_id-from_id : (n : ℕ) → action_type_id (action_type_from_id n) ≡ n
unfolding action_type_id action_type_from_id
action_type_id-from_id n = ground arith

tracker_position_id-from_id : (n : ℕ) → tracker_position_id (tracker_position_from_id n) ≡ n
unfolding tracker_position_id tracker_position_from_id
tracker_position_id-from_id n = ground arith

-- A board, IMU, microcontroller, action or position that is read from a number is written as that
-- number: the ids that are not listed are kept, and no two listed ones are confused.
pub ids_kept :
    (n : ℕ)
    → (board_type_id (board_type_from_id n) ≡ n)
      × (imu_type_id (imu_type_from_id n) ≡ n)
      × (mcu_type_id (mcu_type_from_id n) ≡ n)
      × (action_type_id (action_type_from_id n) ≡ n)
      × (tracker_position_id (tracker_position_from_id n) ≡ n)
ids_kept n = (
  board_type_id-from_id n,
  imu_type_id-from_id n,
  mcu_type_id-from_id n,
  action_type_id-from_id n,
  tracker_position_id-from_id n,
)
