-- ===== src/DualSense/Report/Payload.antt =====
-- crates/device-dualsense/src/report.rs: the reads of a payload with a header before it.
use everything_imu.Prelude.{
  ℕ, ◌+◌, ◌≤◌, ◌<◌, List, ◌++◌, Option, some, ◌≡◌, refl, ap, ◌∙◌, length, arith, from_le,
}
use everything_imu.Slices.{◌>>=◌, at, slice, slice-skip, slice-append, at-skip, at-append}
use everything_imu.DualSense.Report.{
  micros_of, FloatOps, ControllerKind, dual_sense, dual_sense_edge, dual_shock_4, SonyCalibration,
  ImuOffsets, read_i16_le, read_u32_le, sensor_timestamp_us, ps_button_at, read_vector, parse_at,
}
use everything_imu.PsMove.Report.{Outbox}

abbrev pub plain : ℕ → ℕ → ℕ → ℕ → ImuOffsets
plain g a b c = record { gyro = g; accel = a; battery = some b; buttons_2 = some c }

slice-inner :
    (header p tail : List ℕ) (k n : ℕ)
    → k + n ≤ length p
    → slice (header ++ (p ++ tail)) (length header + k) (length header + k + n) ≡ slice p k (k + n)
slice-inner header p tail k n h =
    ap (slice (header ++ (p ++ tail)) (length header + k)) end_at
    ∙ slice-skip header (p ++ tail) k (k + n)
    ∙ slice-append p tail k (k + n) (omega arith) h
  where
    end_at : length header + k + n ≡ length header + (k + n)
    end_at = omega arith

-- Reads in a payload with something before and something behind it.
module _ (header p tail : List ℕ) where
  abbrev pub framed : List ℕ
  framed = header ++ (p ++ tail)

  read_i16_le-inner :
      (k : ℕ) → k + 2 ≤ length p → read_i16_le framed (length header + k) ≡ read_i16_le p k
  unfolding read_i16_le
  read_i16_le-inner k h =
      ap (λ b. b >>= (λ bytes. some (from_le bytes))) (slice-inner header p tail k 2 h)

  read_u32_le-inner :
      (k : ℕ) → k + 4 ≤ length p → read_u32_le framed (length header + k) ≡ read_u32_le p k
  unfolding read_u32_le
  read_u32_le-inner k h =
      ap (λ b. b >>= (λ bytes. some (from_le bytes))) (slice-inner header p tail k 4 h)

  at-inner : (k : ℕ) → k < length p → at framed (length header + k) ≡ at p k
  at-inner k h = at-skip header (p ++ tail) (length header + k) k refl ∙ at-append p tail k h

  read_vector-inner :
      (k : ℕ) → k + 6 ≤ length p → read_vector framed (length header + k) ≡ read_vector p k
  unfolding read_vector
  read_vector-inner k h = rw (read_i16_le-inner k (omega arith), second, third) refl
    where
      second : read_i16_le framed (length header + k + 2) ≡ read_i16_le p (k + 2)
      second =
          ap (read_i16_le framed) {y = length header + (k + 2)} (omega arith)
          ∙ read_i16_le-inner (k + 2) (omega arith)

      third : read_i16_le framed (length header + k + 4) ≡ read_i16_le p (k + 4)
      third =
          ap (read_i16_le framed) {y = length header + (k + 4)} (omega arith)
          ∙ read_i16_le-inner (k + 4) (omega arith)

  -- Where the parts stand, from where the payload begins.
  abbrev pub behind : ℕ → ℕ → ℕ → ℕ → ImuOffsets
  behind g a b c = record {
    gyro = length header + g;
    accel = length header + a;
    battery = some (length header + b);
    buttons_2 = some (length header + c);
  }

  sensor_timestamp_us-inner :
      (kind : ControllerKind) (g a b c : ℕ)
      → a + 10 ≤ length p
      → sensor_timestamp_us kind framed (behind g a b c)
        ≡ sensor_timestamp_us kind p (plain g a b c)
  unfolding sensor_timestamp_us
  sensor_timestamp_us-inner kind g a b c h =
      elim kind
        as (λ k.
          sensor_timestamp_us k framed (behind g a b c) ≡ sensor_timestamp_us k p (plain g a b c)) [
            | dual_sense ↦ ap micros_of ticks
            | dual_sense_edge ↦ ap micros_of ticks
            | dual_shock_4 ↦ refl
          ]
    where
      ticks : read_u32_le framed (length header + a + 6) ≡ read_u32_le p (a + 6)
      ticks =
          ap (read_u32_le framed) {y = length header + (a + 6)} (omega arith)
          ∙ read_u32_le-inner (a + 6) (omega arith)

  ps_button_at-inner :
      (g a b c : ℕ)
      → c < length p
      → ps_button_at framed (behind g a b c) ≡ ps_button_at p (plain g a b c)
  unfolding ps_button_at
  ps_button_at-inner g a b c h = rw (at-inner c h) refl

  module _ (ops : FloatOps) where
    parse_at-inner :
        (kind : ControllerKind) (cal : Option SonyCalibration) (out : Outbox) (g a b c : ℕ)
        → g + 6 ≤ length p
        → a + 10 ≤ length p
        → b < length p
        → parse_at ops kind framed cal out (behind g a b c)
          ≡ parse_at ops kind p cal out (plain g a b c)
    unfolding parse_at
    parse_at-inner kind cal out g a b c hg ha hb =
        rw
          (
            sensor_timestamp_us-inner kind g a b c ha,
            read_vector-inner g hg,
            read_vector-inner a (omega arith),
            at-inner b hb,
          )
          refl

    -- The same for the offsets of a kind, whose header is of length `n`.
    pub parse_at-payload :
        (kind : ControllerKind) (cal : Option SonyCalibration) (out : Outbox) (o : ImuOffsets)
        (g a b c : ℕ)
        → o ≡ behind g a b c
        → g + 6 ≤ length p
        → a + 10 ≤ length p
        → b < length p
        → c < length p
        → (parse_at ops kind framed cal out o ≡ parse_at ops kind p cal out (plain g a b c))
          × (ps_button_at framed o ≡ ps_button_at p (plain g a b c))
    parse_at-payload kind cal out o g a b c e hg ha hb hc = (
      ap (parse_at ops kind framed cal out) e ∙ parse_at-inner kind cal out g a b c hg ha hb,
      ap (ps_button_at framed) e ∙ ps_button_at-inner g a b c hc,
    )
