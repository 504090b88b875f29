-- ===== src/PsMove/Report/RoundTrip.antt =====
-- crates/device-psmove/src/report.rs: a report made of raw values is read back.
use everything_imu.Prelude.{
  ℕ, ◌+◌, ◌*◌, ◌/◌, ◌%◌, ◌^◌, ◌<◌, List, [], ◌∷◌, ◌++◌, Option, none, some, true, if◌then◌else◌,
  ◌≡◌, refl, ap, ◌∙◌, to_le, from_le, from_le-to_le, arith,
}
use everything_imu.Slices.{>>=_step}
use everything_imu.Remote.Protocol.{ImuSample, Vector}
use everything_imu.PsMove.Report.{
  FloatOps, ControllerKind, zcm1, zcm2, has_magnetometer, ImuCalibration, read_u16_le,
  sign_extend_16, centered, sign_extend_12, ReportClock, Outbox, try_send, send_level, level_of,
  apply_accel, apply_gyro, scale3, tick, raw_triplet, parse_frame, parse_mag, parse_report,
  accel_scale_m_s2, gyro_scale_rad_s,
}
use everything_imu.Remote.Device.{imu_samples}

abbrev IsWord : ℕ → Type 0
IsWord v = v < 2 ^ 16

abbrev pub AreWords : Vector → Type 0
AreWords (x, y, z) = IsWord x × IsWord y × IsWord z

-- What stands for an `i16` on the wire.
abbrev pub biased : ControllerKind → ℕ → ℕ
biased zcm1 v = (v + 0x8000) % 2 ^ 16
biased zcm2 v = v

-- A vector, in the order of the wire.
abbrev pub on_wire : ControllerKind → Vector → List ℕ
on_wire kind (x, y, z) =
    to_le 2 (biased kind x) ++ (to_le 2 (biased kind z) ++ to_le 2 (biased kind y))

-- The three 12-bit fields of the magnetometer, in five bytes.
abbrev pub packed : Vector → List ℕ
packed (x, y, z) = (x / 256) ∷ (x % 256) ∷ (z / 16) ∷ (z % 16 * 16 + y / 256) ∷ (y % 256) ∷ []

pub record Frame : Type 0 where
  pub accel : Vector
  pub gyro : Vector

-- A report. The bytes that the parser does not use are those of `other`.
abbrev pub wire_report : ControllerKind → (ℕ → ℕ) → ℕ → Frame → Frame → Vector → List ℕ
wire_report kind other level a b mag =
    other 0
    ∷ other 1
    ∷ other 2
    ∷ other 3
    ∷ other 4
    ∷ other 5
    ∷ other 6
    ∷ other 7
    ∷ other 8
    ∷ other 9
    ∷ other 10
    ∷ other 11
    ∷ level
    ∷ (on_wire kind a.accel
        ++ (on_wire kind b.accel
            ++ (on_wire kind a.gyro
                ++ (on_wire kind b.gyro
                    ++ (other 37
                        ∷ (packed mag
                            ++ (other 43
                                ∷ other 44
                                ∷ other 45
                                ∷ other 46
                                ∷ other 47
                                ∷ other 48
                                ∷ [])))))))

biased-lt : (kind : ControllerKind) (v : ℕ) → IsWord v → biased kind v < 2 ^ 16
biased-lt zcm1 v h = omega arith
biased-lt zcm2 v h = h

centered-biased :
    (kind : ControllerKind) (v : ℕ) → IsWord v → centered kind (biased kind v) ≡ sign_extend_16 v
unfolding centered
centered-biased zcm1 v h = ground arith
centered-biased zcm2 v h = refl

centered-word :
    (kind : ControllerKind) (v : ℕ)
    → IsWord v
    → centered kind (from_le (to_le 2 (biased kind v))) ≡ sign_extend_16 v
centered-word kind v h =
    ap (centered kind) (from_le-to_le 2 (biased kind v) (biased-lt kind v h))
    ∙ centered-biased kind v h

module _ (ops : FloatOps) where
  -- A vector of raw values, before the calibration.
  abbrev pub as_floats : Vector → Vector
  as_floats (x, y, z) =
      (ops.of_i32 (sign_extend_16 x), ops.of_i32 (sign_extend_16 y), ops.of_i32 (sign_extend_16 z))

  raw_triplet-on_wire :
      (kind : ControllerKind) (buf : List ℕ) (ofs : ℕ) (v : Vector)
      → AreWords v
      → read_u16_le buf ofs ≡ some (from_le (to_le 2 (biased kind v.0)))
      → read_u16_le buf (ofs + 2) ≡ some (from_le (to_le 2 (biased kind v.2)))
      → read_u16_le buf (ofs + 4) ≡ some (from_le (to_le 2 (biased kind v.1)))
      → raw_triplet ops kind buf ofs ≡ some (as_floats v)
  unfolding raw_triplet
  raw_triplet-on_wire kind buf ofs (x, y, z) (hx, hy, hz) e0 e1 e2 =
      >>=_step (read_u16_le buf ofs) _ e0 (
        >>=_step (read_u16_le buf (ofs + 2)) _ e1 (
          >>=_step (read_u16_le buf (ofs + 4)) _ e2
            (rw (centered-word kind x hx, centered-word kind y hy, centered-word kind z hz) refl)))

  -- The sample that a frame stands for.
  abbrev pub sample_of : ImuCalibration → Option Vector → ℕ → Frame → ImuSample
  sample_of cal mag ts f = record {
    timestamp_us = ts;
    gyro = scale3 ops (apply_gyro ops cal (as_floats f.gyro)) gyro_scale_rad_s;
    accel = scale3 ops (apply_accel ops cal (as_floats f.accel)) accel_scale_m_s2;
    mag = mag;
  }

  parse_frame-on_wire :
      (kind : ControllerKind) (buf : List ℕ) (a g ts : ℕ) (cal : ImuCalibration) (f : Frame)
      → raw_triplet ops kind buf a ≡ some (as_floats f.accel)
      → raw_triplet ops kind buf g ≡ some (as_floats f.gyro)
      → parse_frame ops kind buf a g ts cal ≡ some (sample_of cal none ts f)
  unfolding parse_frame
  parse_frame-on_wire kind buf a g ts cal f ea eg =
      >>=_step (raw_triplet ops kind buf a) _ ea (>>=_step (raw_triplet ops kind buf g) _ eg refl)

  -- The reading that three fields of twelve bits stand for.
  abbrev pub mag_of : Vector → Vector
  mag_of (x, y, z) =
      (ops.of_i32 (sign_extend_12 x), ops.of_i32 (sign_extend_12 y), ops.of_i32 (sign_extend_12 z))

  abbrev pub AreFields : Vector → Type 0
  AreFields (x, y, z) = (x < 2 ^ 12) × (y < 2 ^ 12) × (z < 2 ^ 12)

  parse_mag-packed :
      (kind : ControllerKind) (other : ℕ → ℕ) (level : ℕ) (a b : Frame) (mag : Vector)
      → AreFields mag
      → parse_mag ops kind (wire_report kind other level a b mag) ≡ some (mag_of mag)
  unfolding parse_mag to_le
  parse_mag-packed kind other level a b (x, y, z) (hx, hy, hz) = rw (fields x, low, high) refl
    where
      fields : (n : ℕ) → x / 256 % 16 * 256 + x % 256 ≡ x
      fields n = omega arith

      high : z / 16 * 16 + (z % 16 * 16 + y / 256) / 16 ≡ z
      high = omega arith

      low : (z % 16 * 16 + y / 256) % 16 * 256 + y % 256 ≡ y
      low = omega arith

  -- A report of 49 bytes is read back, whatever stands in the bytes that are not used: both frames with
  -- their raw values in the order X, Y, Z and calibrated, the magnetometer if the controller has one,
  -- the times of the clock, and then the battery if its byte is known. The raw values are words of
  -- sixteen bits, those of the magnetometer of twelve.
  pub parse_report-wire_report :
      (kind : ControllerKind) (other : ℕ → ℕ) (level : ℕ) (a b : Frame) (mag : Vector)
      (clock : ReportClock) (now : ℕ) (cal : ImuCalibration) (out : Outbox)
      → AreWords a.accel
      → AreWords a.gyro
      → AreWords b.accel
      → AreWords b.gyro
      → AreFields mag
      → let t = tick ops clock now in
        let m = if has_magnetometer kind then some (mag_of mag) else none in
        parse_report ops kind (wire_report kind other level a b mag) clock now cal out ≡ (
          t.0,
          (
            true,
            send_level ops (level_of ops level) (
                try_send
                  (imu_samples (sample_of cal m t.1.0 a ∷ sample_of cal m t.1.1 b ∷ []))
                  out),
          ),
        )
  unfolding parse_report read_u16_le to_le
  parse_report-wire_report kind other level a b mag clock now cal out ha hg ka kg hm =
      let buf = wire_report kind other level a b mag in
      let t = tick ops clock now in
      rw
        (
          parse_frame-on_wire kind buf 13 25 t.1.0 cal a
              (raw_triplet-on_wire kind buf 13 a.accel ha refl refl refl)
              (raw_triplet-on_wire kind buf 25 a.gyro hg refl refl refl),
          parse_frame-on_wire kind buf 19 31 t.1.1 cal b
              (raw_triplet-on_wire kind buf 19 b.accel ka refl refl refl)
              (raw_triplet-on_wire kind buf 31 b.gyro kg refl refl refl),
          parse_mag-packed kind other level a b mag hm,
        )
        refl
