-- ===== src/DualSense/Report/Calibration.antt =====
-- The factory calibration in a feature report, as crates/device-dualsense/src/report.rs reads it.
use everything_imu.Prelude.{
  ℕ, ◌+◌, List, Option, none, some, Bool, true, ◌==◌, ltb, if◌then◌else◌, length, ◌&&◌,
}
use everything_imu.Slices.{◌>>=◌}
use everything_imu.Remote.Protocol.{Vector}
use everything_imu.DualSense.Report.{
  FloatOps, ControllerKind, dual_sense, dual_sense_edge, dual_shock_4, SonyCalibration, read_i16_le,
  read_vector, floats_of, scaled, deg_per_lsb, accel_scale_g, f_1_0,
}

-- 4096.0, 0.9, 1.1, 2.0 and 16384.0.
abbrev largest_bias : ℕ
largest_bias = 0x45800000

abbrev f_0_9 : ℕ
f_0_9 = 0x3F666666

abbrev f_1_1 : ℕ
f_1_1 = 0x3F8CCCCD

abbrev f_2_0 : ℕ
f_2_0 = 0x40000000

abbrev f_2_g : ℕ
f_2_g = 0x46800000

-- Where the readings of the gyroscope stand: in pairs, or the positive ones first.
pub data Order : Type 0 where
  interleaved : Order
  sequential : Order

abbrev pub order_of : ControllerKind → ℕ → Option Order
order_of dual_sense report_id = some sequential
order_of dual_sense_edge report_id = some sequential
order_of dual_shock_4 report_id =
    if report_id == 5 then some interleaved else if report_id == 2 then some sequential else none

-- The readings of the report: the bias, the readings at full speed, the speeds, and the acceleration
-- each way.
pub record Readings : Type 0 where
  pub bias : Vector
  pub plus : Vector
  pub minus : Vector
  pub speed_plus : ℕ
  pub speed_minus : ℕ
  pub acc_plus : Vector
  pub acc_minus : Vector

-- Three readings, each so many bytes behind the other.
abbrev pub read_each : List ℕ → ℕ → ℕ → Option Vector
read_each buf off step = do
  x ← read_i16_le buf off
  y ← read_i16_le buf (off + step)
  z ← read_i16_le buf (off + step + step)
  some (x, y, z)

abbrev pub read_plus : Order → List ℕ → Option Vector
read_plus interleaved buf = read_each buf 7 2
read_plus sequential buf = read_each buf 7 4

abbrev pub read_minus : Order → List ℕ → Option Vector
read_minus interleaved buf = read_each buf 13 2
read_minus sequential buf = read_each buf 9 4

module _ (ops : FloatOps) where
  abbrev any_of : Vector → (ℕ → Bool) → Bool
  any_of (x, y, z) p = if p x then true else if p y then true else p z

  abbrev map_of : (ℕ → ℕ → ℕ) → Vector → Vector → Vector
  map_of f (x, y, z) (x', y', z') = (f x x', f y y', f z z')

  -- The span of the readings both ways.
  abbrev turned : ℕ → ℕ → ℕ → ℕ
  turned bias plus minus = ops.add (ops.abs (ops.sub plus bias)) (ops.abs (ops.sub minus bias))

  abbrev gyro_scale_of : ℕ → ℕ → ℕ
  gyro_scale_of speed_2x denom =
      if ops.lt 0 speed_2x && ops.lt 0 denom
      then ops.clamp (ops.div (ops.div speed_2x denom) deg_per_lsb) f_0_9 f_1_1
      else f_1_0

  abbrev accel_bias_of : ℕ → ℕ → ℕ
  accel_bias_of plus range = ops.mul (ops.sub plus (ops.div range f_2_0)) accel_scale_g

  abbrev accel_scale_of : ℕ → ℕ
  accel_scale_of range = ops.clamp (ops.div f_2_g range) f_0_9 f_1_1

  unfoldable pub read_readings : Order → List ℕ → Option Readings
  read_readings order buf = do
    bias ← read_vector buf 1
    plus ← read_plus order buf
    minus ← read_minus order buf
    speed_plus ← read_i16_le buf 19
    speed_minus ← read_i16_le buf 21
    acc_plus ← read_each buf 23 4
    acc_minus ← read_each buf 25 4
    some (record {
      bias = bias;
      plus = plus;
      minus = minus;
      speed_plus = speed_plus;
      speed_minus = speed_minus;
      acc_plus = acc_plus;
      acc_minus = acc_minus;
    })

  unfoldable pub calibration_of : Readings → Option SonyCalibration
  calibration_of r =
      let bias = floats_of ops r.bias in
      let plus = floats_of ops r.plus in
      let minus = floats_of ops r.minus in
      let acc_plus = floats_of ops r.acc_plus in
      let range = map_of ops.sub acc_plus (floats_of ops r.acc_minus) in
      let speed_2x = ops.add (ops.of_i16 r.speed_plus) (ops.of_i16 r.speed_minus) in
      let gyro_scale : Vector = (
        gyro_scale_of speed_2x (turned bias.0 plus.0 minus.0),
        gyro_scale_of speed_2x (turned bias.1 plus.1 minus.1),
        gyro_scale_of speed_2x (turned bias.2 plus.2 minus.2),
      ) in
      let bias_dps = scaled ops bias deg_per_lsb in
      if any_of bias (λ v. ops.lt largest_bias (ops.abs v))
      then none
      else if any_of range (λ v. ops.le v 0)
      then some (record {
        gyro_bias_dps = bias_dps;
        gyro_scale = gyro_scale;
        accel_bias_g = (0, 0, 0);
        accel_scale = (f_1_0, f_1_0, f_1_0);
      })
      else some (record {
        gyro_bias_dps = bias_dps;
        gyro_scale = gyro_scale;
        accel_bias_g = map_of accel_bias_of acc_plus range;
        accel_scale = (accel_scale_of range.0, accel_scale_of range.1, accel_scale_of range.2);
      })

  unfoldable pub parse_feature_calibration : ControllerKind → ℕ → List ℕ → Option SonyCalibration
  parse_feature_calibration kind report_id buf = do
    order ← order_of kind report_id
    readings ← if ltb (length buf) 35 then none else read_readings order buf
    calibration_of readings
