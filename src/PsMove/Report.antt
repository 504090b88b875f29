-- ===== src/PsMove/Report.antt =====
-- Input reports of crates/device-psmove/src/report.rs, with ids.rs, axis_remap.rs and the calibrations of
-- calibration.rs. An `i32` or `f32` is its bit pattern, an instant a number of nanoseconds; the
-- operations of the processor are a parameter.
pub mod RoundTrip
pub mod Clock
use everything_imu.Prelude.{
  ℕ, zero, suc, ◌+◌, ◌-◌, ◌*◌, ◌/◌, ◌%◌, ◌^◌, List, [], ◌∷◌, ◌++◌, Option, none, some, Bool, true,
  false, ltb, ◌==◌, if◌then◌else◌, length, from_le,
}
use everything_imu.Slices.{◌>>=◌, at, slice}
use everything_imu.Remote.Protocol.{ImuSample, Vector}
use everything_imu.Remote.Device.{ChannelInfo, imu_samples, battery}

pub record FloatOps : Type 0 where
  pub add : ℕ → ℕ → ℕ
  pub sub : ℕ → ℕ → ℕ
  pub mul : ℕ → ℕ → ℕ
  pub max_of : ℕ → ℕ → ℕ
  pub of_i32 : ℕ → ℕ
  pub of_u128 : ℕ → ℕ
  pub to_u64 : ℕ → ℕ

-- 9.80665 / 16384 and π / 180 / 16.4.
abbrev pub accel_scale_m_s2 : ℕ
accel_scale_m_s2 = 0x3A1CE80A

abbrev pub gyro_scale_rad_s : ℕ
gyro_scale_rad_s = 0x3A8B7D79

-- 1000000 / 175.
abbrev pub nominal_report_dt_us : ℕ
nominal_report_dt_us = 0x45B29249

-- 0.9, 0.1 and 1.0.
abbrev pub f_old_part : ℕ
f_old_part = 0x3F666666

abbrev pub f_new_part : ℕ
f_new_part = 0x3DCCCCCD

abbrev pub f_1_0 : ℕ
f_1_0 = 0x3F800000

pub data ControllerKind : Type 0 where
  zcm1 : ControllerKind
  zcm2 : ControllerKind

abbrev pub from_pid : ℕ → Option ControllerKind
from_pid pid = if pid == 0x03D5 then some zcm1 else if pid == 0x0C5E then some zcm2 else none

abbrev pub has_magnetometer : ControllerKind → Bool
has_magnetometer zcm1 = true
has_magnetometer zcm2 = false

abbrev pub deswizzle : ControllerKind → Vector → Vector
deswizzle kind (a, b, c) = (a, c, b)

pub record ImuCalibration : Type 0 where
  pub accel_bias : Vector
  pub accel_gain : Vector
  pub gyro_bias : Vector
  pub gyro_gain : Vector

abbrev pub identity : ImuCalibration
identity = record {
  accel_bias = (0, 0, 0);
  accel_gain = (f_1_0, f_1_0, f_1_0);
  gyro_bias = (0, 0, 0);
  gyro_gain = (f_1_0, f_1_0, f_1_0);
}

unfoldable pub read_u16_le : List ℕ → ℕ → Option ℕ
read_u16_le buf offset = do bytes ← slice buf offset (offset + 2); some (from_le bytes)

-- `raw as i16 as i32`.
abbrev pub sign_extend_16 : ℕ → ℕ
sign_extend_16 raw = if ltb raw 0x8000 then raw else raw + 0xFFFF0000

unfoldable pub centered : ControllerKind → ℕ → ℕ
centered zcm1 raw = (raw + (2 ^ 32 - 0x8000)) % 2 ^ 32
centered zcm2 raw = sign_extend_16 raw

unfoldable pub sign_extend_12 : ℕ → ℕ
sign_extend_12 v = let w = v % 0x1000 in if w / 0x800 % 2 == 0 then w else w + (2 ^ 32 - 0x1000)

pub record ReportClock : Type 0 where
  pub last : Option ℕ
  pub accum_us : ℕ
  pub ema_dt_us : ℕ

abbrev pub new_clock : ReportClock
new_clock = record { last = none; accum_us = 0; ema_dt_us = nominal_report_dt_us }

-- The channel to the pipeline: what was sent, and for how many more there is room.
pub record Outbox : Type 0 where
  pub sent : List ChannelInfo
  pub room : ℕ

-- `let _ = out.try_send(..)`.
abbrev pub try_send : ChannelInfo → Outbox → Outbox
try_send info out = elim out.room [
  | zero ↦ out
  | suc n ↦ record { sent = out.sent ++ info ∷ []; room = n }
]

module _ (ops : FloatOps) where
  abbrev pub corrected : Vector → Vector → Vector → Vector
  corrected (bx, by_, bz) (gx, gy, gz) (x, y, z) =
      (ops.mul (ops.sub x bx) gx, ops.mul (ops.sub y by_) gy, ops.mul (ops.sub z bz) gz)

  abbrev pub apply_accel : ImuCalibration → Vector → Vector
  apply_accel cal raw = corrected cal.accel_bias cal.accel_gain raw

  abbrev pub apply_gyro : ImuCalibration → Vector → Vector
  apply_gyro cal raw = corrected cal.gyro_bias cal.gyro_gain raw

  abbrev pub scale3 : Vector → ℕ → Vector
  scale3 (x, y, z) scale = (ops.mul x scale, ops.mul y scale, ops.mul z scale)

  -- The microseconds since the last report.
  abbrev pub interval : Option ℕ → ℕ → ℕ
  interval none now = nominal_report_dt_us
  interval (some prev) now = ops.of_u128 ((now - prev) / 1000)

  abbrev pub next_ema : ReportClock → ℕ → ℕ
  next_ema c now =
      ops.add (ops.mul c.ema_dt_us f_old_part) (ops.mul (interval c.last now) f_new_part)

  -- The microseconds that the clock goes on by.
  unfoldable pub smoothed_dt : ReportClock → ℕ → ℕ
  smoothed_dt c now = ops.to_u64 (ops.max_of (next_ema c now) f_1_0)

  unfoldable pub tick : ReportClock → ℕ → ReportClock × (ℕ × ℕ)
  unfolding smoothed_dt
  tick c now =
      let dt = smoothed_dt c now in
      let frame_a = (c.accum_us + dt / 2) % 2 ^ 64 in
      let frame_b = (c.accum_us + dt) % 2 ^ 64 in
      (
        record { last = some now; accum_us = frame_b; ema_dt_us = next_ema c now },
        (frame_a, frame_b),
      )

  unfoldable pub raw_triplet : ControllerKind → List ℕ → ℕ → Option Vector
  raw_triplet kind buf ofs = do
    a ← read_u16_le buf ofs
    b ← read_u16_le buf (ofs + 2)
    c ← read_u16_le buf (ofs + 4)
    some (
        deswizzle kind (
          ops.of_i32 (centered kind a),
          ops.of_i32 (centered kind b),
          ops.of_i32 (centered kind c),
        ))

  unfoldable pub parse_frame :
      ControllerKind → List ℕ → ℕ → ℕ → ℕ → ImuCalibration → Option ImuSample
  parse_frame kind buf accel_ofs gyro_ofs timestamp_us cal = do
    accel ← raw_triplet kind buf accel_ofs
    gyro ← raw_triplet kind buf gyro_ofs
    some (record {
      timestamp_us = timestamp_us;
      gyro = scale3 (apply_gyro cal gyro) gyro_scale_rad_s;
      accel = scale3 (apply_accel cal accel) accel_scale_m_s2;
      mag = none;
    })

  unfoldable pub parse_mag : ControllerKind → List ℕ → Option Vector
  parse_mag kind buf = do
    b ← slice buf 38 43
    b0 ← at b 0
    b1 ← at b 1
    b2 ← at b 2
    b3 ← at b 3
    b4 ← at b 4
    some (
        deswizzle kind (
          ops.of_i32 (sign_extend_12 (b0 % 16 * 256 + b1)),
          ops.of_i32 (sign_extend_12 (b2 * 16 + b3 / 16)),
          ops.of_i32 (sign_extend_12 (b3 % 16 * 256 + b4)),
        ))

  -- A frame that could be read, with the reading of the magnetometer.
  abbrev pub with_mag : Option Vector → Option ImuSample → List ImuSample
  with_mag mag none = []
  with_mag mag (some s) = record s { mag = mag } ∷ []

  -- 0.0, 0.2, 0.4, 0.6, 0.8 and 1.0; 0.5 and 1.0 while it charges.
  abbrev pub level_of : ℕ → Option (ℕ × Bool)
  level_of byte =
      if byte == 0
      then some (0, false)
      else if byte == 1
      then some (0x3E4CCCCD, false)
      else if byte == 2
      then some (0x3ECCCCCD, false)
      else if byte == 3
      then some (0x3F19999A, false)
      else if byte == 4
      then some (0x3F4CCCCD, false)
      else if byte == 5
      then some (f_1_0, false)
      else if byte == 0xEE
      then some (0x3F000000, true)
      else if byte == 0xEF
      then some (f_1_0, true)
      else none

  abbrev pub send_level : Option (ℕ × Bool) → Outbox → Outbox
  send_level none out = out
  send_level (some (fraction, charging)) out = try_send (battery fraction charging) out

  abbrev pub send_level_of : Option ℕ → Outbox → Outbox
  send_level_of none out = out
  send_level_of (some byte) out = send_level (level_of byte) out

  -- What `parse_report` does with the samples.
  abbrev pub send_samples : List ℕ → List ImuSample → Outbox → Bool × Outbox
  send_samples buf [] out = (false, out)
  send_samples buf (s ∷ samples) out =
      (true, send_level_of (at buf 12) (try_send (imu_samples (s ∷ samples)) out))

  -- `parse_report` at the instant `now`.
  unfoldable pub parse_report :
      ControllerKind
      → List ℕ
      → ReportClock
      → ℕ
      → ImuCalibration
      → Outbox
      → ReportClock × (Bool × Outbox)
  parse_report kind buf clock now cal out =
      let (clock', (ts_a, ts_b)) = tick clock now in
      let mag = if has_magnetometer kind then parse_mag kind buf else none in
      let samples =
        with_mag mag (parse_frame kind buf 13 25 ts_a cal)
        ++ with_mag mag (parse_frame kind buf 19 31 ts_b cal) in
      if ltb (length buf) 49 then (clock, (false, out)) else (clock', send_samples buf samples out)
