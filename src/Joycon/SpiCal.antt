-- ===== src/Joycon/SpiCal.antt =====
-- The factory calibration of crates/device-joycon/src/spi_cal.rs. An `i16` or `f32` is its bit pattern; the
-- operations of the processor are a parameter. The outer `Option` is `none` where Rust panics on a
-- read out of range.
pub mod Plausible
use everything_imu.Prelude.{
  ℕ, ◌+◌, ◌-◌, List, [], ◌∷◌, Option, none, some, Bool, true, false, not, ◌&&◌, Result, ok, err,
  leb, ltb, ◌==◌, if◌then◌else◌, length, from_le,
}
use everything_imu.Slices.{◌>>=◌, slice, u16le}
use everything_imu.Joycon.Report.{Axes}

pub record FloatOps : Type 0 where
  pub sub : ℕ → ℕ → ℕ
  pub mul : ℕ → ℕ → ℕ
  pub div : ℕ → ℕ → ℕ
  pub abs : ℕ → ℕ
  pub lt : ℕ → ℕ → Bool
  pub le : ℕ → ℕ → Bool
  pub is_finite : ℕ → Bool
  pub of_i16 : ℕ → ℕ

abbrev pub accel_offset_plausible_abs : ℕ
accel_offset_plausible_abs = 2000

abbrev pub gyro_offset_plausible_abs : ℕ
gyro_offset_plausible_abs = 1000

abbrev pub user_override_magic : ℕ
user_override_magic = 0xA1B2

-- 4.0, 936.0, 4 / 16384 and 936 / 13371.
abbrev pub accel_coeff_numerator : ℕ
accel_coeff_numerator = 0x40800000

abbrev pub gyro_coeff_numerator : ℕ
gyro_coeff_numerator = 0x446A0000

abbrev pub nominal_accel_coeff_g : ℕ
nominal_accel_coeff_g = 0x39800000

abbrev pub nominal_gyro_coeff_dps : ℕ
nominal_gyro_coeff_dps = 0x3D8F5D56

-- 0.5, 1.0 and 2.0.
abbrev pub f_0_5 : ℕ
f_0_5 = 0x3F000000

abbrev pub f_1_0 : ℕ
f_1_0 = 0x3F800000

abbrev pub f_2_0 : ℕ
f_2_0 = 0x40000000

pub record ImuCalibration : Type 0 where
  pub accel_offset : Axes
  pub accel_sensitivity : Option Axes
  pub gyro_offset : Axes
  pub gyro_sensitivity : Option Axes
  pub accel_coeff_g : Axes
  pub gyro_coeff_dps : Axes
  pub plausibility_warning : Bool

abbrev pub same_for_all : ℕ → Axes
same_for_all v = (v, v, v)

abbrev pub zero_calibration : ImuCalibration
zero_calibration = record {
  accel_offset = (0, 0, 0);
  accel_sensitivity = none;
  gyro_offset = (0, 0, 0);
  gyro_sensitivity = none;
  accel_coeff_g = same_for_all nominal_accel_coeff_g;
  gyro_coeff_dps = same_for_all nominal_gyro_coeff_dps;
  plausibility_warning = false;
}

pub data SpiError : Type 0 where
  wrong_length : ℕ → SpiError

abbrev pub unsigned_abs : ℕ → ℕ
unsigned_abs v = if ltb v 0x8000 then v else 0x10000 - v

unfoldable pub plausible_offset : Axes → ℕ → Bool
plausible_offset (x, y, z) abs_max =
    leb (unsigned_abs x) abs_max && (leb (unsigned_abs y) abs_max && leb (unsigned_abs z) abs_max)

abbrev pub all_are : ℕ → List ℕ → Bool
all_are v [] = true
all_are v (b ∷ bytes) = b == v && all_are v bytes

abbrev pub is_zeros_or_ff : List ℕ → Bool
is_zeros_or_ff bytes = if all_are 0 bytes then true else all_are 0xFF bytes

unfoldable pub user_override_magic_present : List ℕ → Bool
user_override_magic_present (b0 ∷ b1 ∷ bytes) = from_le (b0 ∷ b1 ∷ []) == user_override_magic
user_override_magic_present bytes = false

unfoldable pub read_i16_3 : List ℕ → ℕ → Option Axes
read_i16_3 block off = do
  x ← u16le block off
  y ← u16le block (off + 2)
  z ← u16le block (off + 4)
  some (x, y, z)

module _ (ops : FloatOps) where
  -- One axis of `axis_coeffs`.
  unfoldable pub axis_coeff : ℕ → ℕ → ℕ → ℕ → ℕ
  axis_coeff numerator nominal sens offset =
      let denom = ops.sub (ops.of_i16 sens) (ops.of_i16 offset) in
      let coeff = ops.div numerator denom in
      if ops.le (ops.abs denom) f_1_0
      then nominal
      else if ops.is_finite coeff
          && (ops.lt (ops.mul nominal f_0_5) coeff && ops.lt coeff (ops.mul nominal f_2_0))
      then coeff
      else nominal

  abbrev pub axis_coeffs : Option Axes → Axes → ℕ → ℕ → Axes
  axis_coeffs none offset numerator nominal = same_for_all nominal
  axis_coeffs (some (sx, sy, sz)) (ox, oy, oz) numerator nominal = (
    axis_coeff numerator nominal sx ox,
    axis_coeff numerator nominal sy oy,
    axis_coeff numerator nominal sz oz,
  )

  -- The calibration of what the block says.
  unfoldable pub calibration_of_block : Axes → Option Axes → Axes → Option Axes → ImuCalibration
  calibration_of_block accel accel_sens gyro gyro_sens =
      if plausible_offset accel accel_offset_plausible_abs
        && plausible_offset gyro gyro_offset_plausible_abs
      then record {
        accel_offset = accel;
        accel_sensitivity = accel_sens;
        gyro_offset = gyro;
        gyro_sensitivity = gyro_sens;
        accel_coeff_g = axis_coeffs accel_sens accel accel_coeff_numerator nominal_accel_coeff_g;
        gyro_coeff_dps = axis_coeffs gyro_sens gyro gyro_coeff_numerator nominal_gyro_coeff_dps;
        plausibility_warning = false;
      }
      else record {
        accel_offset = (0, 0, 0);
        accel_sensitivity = accel_sens;
        gyro_offset = (0, 0, 0);
        gyro_sensitivity = gyro_sens;
        accel_coeff_g = same_for_all nominal_accel_coeff_g;
        gyro_coeff_dps = same_for_all nominal_gyro_coeff_dps;
        plausibility_warning = true;
      }

  -- What stands behind the test of the length.
  unfoldable pub read_block : List ℕ → Option ImuCalibration
  read_block block = do
    accel_offset ← read_i16_3 block 0
    accel_sens_raw ← read_i16_3 block 6
    gyro_offset ← read_i16_3 block 12
    gyro_sens_raw ← read_i16_3 block 18
    accel_bytes ← slice block 6 12
    gyro_bytes ← slice block 18 24
    some (
        calibration_of_block accel_offset
          (if is_zeros_or_ff accel_bytes then none else some accel_sens_raw) gyro_offset
          (if is_zeros_or_ff gyro_bytes then none else some gyro_sens_raw))

  unfoldable pub parse_factory_block : List ℕ → Option (Result SpiError ImuCalibration)
  parse_factory_block block =
      let read = read_block block >>= (λ c. some (ok c)) in
      if ltb (length block) 24 then some (err (wrong_length (length block))) else read
