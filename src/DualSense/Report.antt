-- ===== src/DualSense/Report.antt =====
-- Input reports of crates/device-dualsense/src/report.rs, with ids.rs and axis_remap.rs. An `i16` or `f32` is
-- its bit pattern; the operations of the processor are a parameter.
pub mod Payload
pub mod Bluetooth
pub mod Calibration
use everything_imu.Prelude.{
  ℕ, ◌+◌, ◌/◌, ◌%◌, List, [], ◌∷◌, Option, none, some, Bool, true, false, not, leb, ◌==◌,
  if◌then◌else◌, length, from_le,
}
use everything_imu.Slices.{◌>>=◌, at, slice}
use everything_imu.Remote.Protocol.{ImuSample, Vector}
use everything_imu.Remote.Device.{imu_samples, battery}
use everything_imu.PsMove.Report.{Outbox, try_send}

pub record FloatOps : Type 0 where
  pub sub : ℕ → ℕ → ℕ
  pub add : ℕ → ℕ → ℕ
  pub mul : ℕ → ℕ → ℕ
  pub div : ℕ → ℕ → ℕ
  pub abs : ℕ → ℕ
  pub lt : ℕ → ℕ → Bool
  pub le : ℕ → ℕ → Bool
  pub clamp : ℕ → ℕ → ℕ → ℕ
  pub of_i16 : ℕ → ℕ
  pub of_u8 : ℕ → ℕ

-- 2000 / 32767, π / 180 and 4 / 32767.
abbrev pub deg_per_lsb : ℕ
deg_per_lsb = 0x3D7A01F4

abbrev pub rad_per_deg : ℕ
rad_per_deg = 0x3C8EFA35

abbrev pub accel_scale_g : ℕ
accel_scale_g = 0x39000100

-- 9.80665, 10.0 and 1.0.
abbrev pub f_gravity : ℕ
f_gravity = 0x411CE80A

abbrev pub f_10_0 : ℕ
f_10_0 = 0x41200000

abbrev pub f_1_0 : ℕ
f_1_0 = 0x3F800000

pub data ControllerKind : Type 0 where
  dual_sense : ControllerKind
  dual_sense_edge : ControllerKind
  dual_shock_4 : ControllerKind

abbrev pub from_pid : ℕ → Option ControllerKind
from_pid pid =
    if pid == 0x0CE6
    then some dual_sense
    else if pid == 0x0DF2
    then some dual_sense_edge
    else if pid == 0x05C4
    then some dual_shock_4
    else if pid == 0x09CC
    then some dual_shock_4
    else none

pub record SonyCalibration : Type 0 where
  pub gyro_bias_dps : Vector
  pub gyro_scale : Vector
  pub accel_bias_g : Vector
  pub accel_scale : Vector

pub record ImuOffsets : Type 0 where
  pub gyro : ℕ
  pub accel : ℕ
  pub battery : Option ℕ
  pub buttons_2 : Option ℕ

-- The shape of a report over USB, then over Bluetooth.
abbrev pub usb_offsets : ControllerKind → ImuOffsets
usb_offsets dual_sense = record { gyro = 16; accel = 22; battery = some 53; buttons_2 = some 10 }
usb_offsets dual_sense_edge = record {
  gyro = 16;
  accel = 22;
  battery = some 53;
  buttons_2 = some 10;
}
usb_offsets dual_shock_4 = record { gyro = 13; accel = 19; battery = some 30; buttons_2 = some 7 }

abbrev pub bluetooth_offsets : ControllerKind → ImuOffsets
bluetooth_offsets dual_sense = record {
  gyro = 17;
  accel = 23;
  battery = some 54;
  buttons_2 = some 11;
}
bluetooth_offsets dual_sense_edge = record {
  gyro = 17;
  accel = 23;
  battery = some 54;
  buttons_2 = some 11;
}
bluetooth_offsets dual_shock_4 = record {
  gyro = 15;
  accel = 21;
  battery = some 32;
  buttons_2 = some 9;
}

unfoldable pub for_report : ControllerKind → ℕ → Option ImuOffsets
for_report kind len =
    if len == 64
    then some (usb_offsets kind)
    else if leb 78 len
    then some (bluetooth_offsets kind)
    else none

unfoldable pub read_i16_le : List ℕ → ℕ → Option ℕ
read_i16_le buf offset = do bytes ← slice buf offset (offset + 2); some (from_le bytes)

unfoldable pub read_u32_le : List ℕ → ℕ → Option ℕ
read_u32_le buf offset = do bytes ← slice buf offset (offset + 4); some (from_le bytes)

-- Thirds of a microsecond, rounded.
abbrev pub micros_of : Option ℕ → ℕ
micros_of none = 0
micros_of (some ticks) = (ticks + 1) / 3

unfoldable pub sensor_timestamp_us : ControllerKind → List ℕ → ImuOffsets → ℕ
sensor_timestamp_us dual_sense buf o = micros_of (read_u32_le buf (o.accel + 6))
sensor_timestamp_us dual_sense_edge buf o = micros_of (read_u32_le buf (o.accel + 6))
sensor_timestamp_us dual_shock_4 buf o = 0

unfoldable pub ps_button_at : List ℕ → ImuOffsets → Option Bool
ps_button_at buf o = do off ← o.buttons_2; byte ← at buf off; some (not (byte % 2 == 0))

unfoldable pub parse_ps_button : ControllerKind → List ℕ → Option Bool
parse_ps_button kind buf = do offsets ← for_report kind (length buf); ps_button_at buf offsets

abbrev pub apply : ControllerKind → Vector → Vector
apply dual_sense v = v
apply dual_sense_edge v = v
apply dual_shock_4 v = v

unfoldable pub read_vector : List ℕ → ℕ → Option Vector
read_vector buf o = do
  x ← read_i16_le buf o
  y ← read_i16_le buf (o + 2)
  z ← read_i16_le buf (o + 4)
  some (x, y, z)

module _ (ops : FloatOps) where
  abbrev pub floats_of : Vector → Vector
  floats_of (x, y, z) = (ops.of_i16 x, ops.of_i16 y, ops.of_i16 z)

  abbrev pub scaled : Vector → ℕ → Vector
  scaled (x, y, z) s = (ops.mul x s, ops.mul y s, ops.mul z s)

  abbrev pub centred : Vector → Vector → Vector → Vector
  centred (bx, by_, bz) (sx, sy, sz) (x, y, z) =
      (ops.mul (ops.sub x bx) sx, ops.mul (ops.sub y by_) sy, ops.mul (ops.sub z bz) sz)

  abbrev pub gyro_dps : Option SonyCalibration → Vector → Vector
  gyro_dps none v = v
  gyro_dps (some cal) v = centred cal.gyro_bias_dps cal.gyro_scale v

  abbrev pub accel_g : Option SonyCalibration → Vector → Vector
  accel_g none v = v
  accel_g (some cal) v = centred cal.accel_bias_g cal.accel_scale v

  abbrev pub sample_of : ControllerKind → Option SonyCalibration → Vector → Vector → ℕ → ImuSample
  sample_of kind cal gyro accel timestamp_us = record {
    timestamp_us = timestamp_us;
    gyro = apply kind (scaled (gyro_dps cal (scaled (floats_of gyro) deg_per_lsb)) rad_per_deg);
    accel = apply kind (scaled (accel_g cal (scaled (floats_of accel) accel_scale_g)) f_gravity);
    mag = none;
  }

  -- The byte of the battery: its level in tenths, and whether it charges.
  abbrev pub send_battery_byte : Option ℕ → Outbox → Outbox
  send_battery_byte none out = out
  send_battery_byte (some byte) out =
      try_send
        (battery (ops.clamp (ops.div (ops.of_u8 (byte % 16)) f_10_0) 0 f_1_0)
          (not (byte / 16 % 2 == 0)))
        out

  -- What is sent of the vectors that were read, if they were.
  abbrev pub send_read :
      ControllerKind
      → Option SonyCalibration
      → ℕ
      → Option ℕ
      → Outbox
      → Option (Vector × Vector)
      → Bool × Outbox
  send_read kind cal timestamp_us level out none = (false, out)
  send_read kind cal timestamp_us level out (some (gyro, accel)) = (
    true,
    send_battery_byte level
        (try_send (imu_samples (sample_of kind cal gyro accel timestamp_us ∷ [])) out),
  )

  -- `parse_report` behind the choice of the offsets.
  unfoldable pub parse_at :
      ControllerKind → List ℕ → Option SonyCalibration → Outbox → ImuOffsets → Bool × Outbox
  parse_at kind buf cal out o =
      send_read kind cal (sensor_timestamp_us kind buf o) (o.battery >>= (λ off. at buf off)) out
        (do gyro ← read_vector buf o.gyro; accel ← read_vector buf o.accel; some (gyro, accel))

  abbrev pub parse_shape :
      ControllerKind → List ℕ → Option SonyCalibration → Outbox → Option ImuOffsets → Bool × Outbox
  parse_shape kind buf cal out none = (false, out)
  parse_shape kind buf cal out (some o) = parse_at kind buf cal out o

  unfoldable pub parse_report :
      ControllerKind → List ℕ → Option SonyCalibration → Outbox → Bool × Outbox
  parse_report kind buf cal out = parse_shape kind buf cal out (for_report kind (length buf))
