-- ===== src/Joycon/Jc2.antt =====
-- The Joy-Con 2 protocol of crates/device-joycon/src/jc2.rs. An `i16` or `f32` is its bit pattern; the
-- operations of the processor are a parameter. The outer `Option` is `none` where Rust panics on a
-- read out of range.
pub mod Flash
pub mod Total
use everything_imu.Prelude.{
  ℕ, zero, suc, ◌+◌, ◌-◌, ◌*◌, ◌/◌, ◌%◌, ◌^◌, min, List, [], ◌∷◌, Option, none, some, Bool, true,
  false, not, ◌&&◌, leb, ltb, ◌==◌, if◌then◌else◌, length, to_le,
}
use Prim.Native.Nat.{bit_xor}
use everything_imu.Slices.{◌>>=◌, at, slice, same, u16le, f32le}
use everything_imu.Joycon.Report.{BatteryState}
use everything_imu.Remote.Protocol.{ImuSample, Vector}

pub record FloatOps : Type 0 where
  pub add : ℕ → ℕ → ℕ
  pub sub : ℕ → ℕ → ℕ
  pub mul : ℕ → ℕ → ℕ
  pub div : ℕ → ℕ → ℕ
  pub neg : ℕ → ℕ
  pub abs : ℕ → ℕ
  pub sqrt : ℕ → ℕ
  pub lt : ℕ → ℕ → Bool
  pub le : ℕ → ℕ → Bool
  pub eq : ℕ → ℕ → Bool
  pub is_finite : ℕ → Bool
  pub clamp : ℕ → ℕ → ℕ → ℕ
  pub of_i16 : ℕ → ℕ
  pub of_u16 : ℕ → ℕ

abbrev pub nintendo_adv_prefix : List ℕ
nintendo_adv_prefix = 1 ∷ 0 ∷ 3 ∷ 0x7E ∷ []

abbrev pub adv_kind_jc2_r : ℕ
adv_kind_jc2_r = 5

abbrev pub adv_kind_jc2_l : ℕ
adv_kind_jc2_l = 6

abbrev pub adv_kind_jc2_pro : ℕ
adv_kind_jc2_pro = 9

abbrev pub report_0x05_len : ℕ
report_0x05_len = 0x3C

-- 9.80665 / 4096, 34.8 / 32767 and 4900 / 32767.
abbrev pub accel_m_s2_per_lsb : ℕ
accel_m_s2_per_lsb = 0x3B1CE80A

abbrev pub gyro_rad_s_per_lsb : ℕ
gyro_rad_s_per_lsb = 0x3A8B3449

abbrev pub mag_ut_per_lsb : ℕ
mag_ut_per_lsb = 0x3E192132

-- 10.0, 120.0, 3000.0, 1200.0 and 1.0.
abbrev pub mag_min_magnitude_ut : ℕ
mag_min_magnitude_ut = 0x41200000

abbrev pub mag_max_magnitude_ut : ℕ
mag_max_magnitude_ut = 0x42F00000

abbrev pub battery_mv_min : ℕ
battery_mv_min = 0x453B8000

abbrev pub battery_mv_range : ℕ
battery_mv_range = 0x44960000

abbrev f_1_0 : ℕ
f_1_0 = 0x3F800000

pub data JoyCon2Kind : Type 0 where
  left : JoyCon2Kind
  right : JoyCon2Kind
  pro : JoyCon2Kind

abbrev pub kind_from_pid : ℕ → Option JoyCon2Kind
kind_from_pid pid =
    if pid == 0x2067
    then some left
    else if pid == 0x2066
    then some right
    else if pid == 0x2068
    then some right
    else if pid == 0x2069
    then some pro
    else none

-- What the scan of the advertisement says of a word: go on, or return.
abbrev pub scan_word : ℕ → Option (Option JoyCon2Kind)
scan_word word =
    if word == 0x2067
    then some (some left)
    else if word == 0x2066
    then some (some right)
    else if word == 0x2068
    then some (some right)
    else if word == 0x2069
    then some (some pro)
    else if word == 0x2073
    then some none
    else none

abbrev pub kind_of_hint : ℕ → JoyCon2Kind
kind_of_hint hint =
    if hint == adv_kind_jc2_l
    then left
    else if hint == adv_kind_jc2_r
    then right
    else if hint == adv_kind_jc2_pro
    then pro
    else right

-- `f` at `off`, `off + 1` and so on, `n` times, until it returns something.
abbrev pub first_at {ℓ} : {A : Type ℓ} → (ℕ → Option (Option A)) → ℕ → ℕ → Option (Option A)
first_at f off zero = some none
first_at f off (suc n) =
    let rest = first_at f (off + 1) n in
    f off >>= (λ found. elim found [ none ↦ rest | some a ↦ some (some a) ])

abbrev pub hint_at : List ℕ → Option (Option JoyCon2Kind)
hint_at block = do hint ← at block 4; some (some (kind_of_hint hint))

-- The scan returned, or the hint counts.
abbrev pub or_hint : List ℕ → Option (Option JoyCon2Kind) → Option (Option JoyCon2Kind)
or_hint block none = hint_at block
or_hint block (some found) = some found

-- The offsets 4 to `length block - 2`.
unfoldable pub scan_pid : List ℕ → Option (Option (Option JoyCon2Kind))
scan_pid block =
    if leb 6 (length block)
    then first_at (λ off. do word ← u16le block off; some (scan_word word)) 4 (length block - 5)
    else some none

-- What stands behind the test of the length.
unfoldable pub kind_of_block : List ℕ → Option (Option JoyCon2Kind)
unfolding scan_pid
kind_of_block block = do
  prefix ← slice block 0 4
  found ← if same prefix nintendo_adv_prefix then scan_pid block else some (some none)
  or_hint block found

-- `kind_from_manufacturer_data` on the entry of Nintendo in the advertisement.
unfoldable pub kind_from_manufacturer_data : Option (List ℕ) → Option (Option JoyCon2Kind)
unfolding kind_of_block
kind_from_manufacturer_data none = some none
kind_from_manufacturer_data (some block) =
    let kind = kind_of_block block in if ltb (length block) 5 then some none else kind

pub record ParsedJc2Report : Type 0 where
  pub sample : ImuSample
  pub battery : BatteryState
  pub home_pressed : Bool
  pub capture_pressed : Bool

unfoldable pub read_i16_3 : List ℕ → ℕ → Option Vector
read_i16_3 buf o = do x ← u16le buf o; y ← u16le buf (o + 2); z ← u16le buf (o + 4); some (x, y, z)

module _ (ops : FloatOps) where
  abbrev pub remap_axes : JoyCon2Kind → Vector → Vector
  remap_axes left (x, y, z) = (ops.neg y, z, ops.neg x)
  remap_axes right (x, y, z) = (ops.neg (ops.neg y), z, x)
  remap_axes pro (x, y, z) = (x, z, ops.neg y)

  abbrev pub scaled : Vector → ℕ → Vector
  scaled (x, y, z) s =
      (ops.mul (ops.of_i16 x) s, ops.mul (ops.of_i16 y) s, ops.mul (ops.of_i16 z) s)

  abbrev pub unbiased : Option Vector → Vector → Vector
  unbiased none v = v
  unbiased (some (bx, by_, bz)) (x, y, z) = (ops.sub x bx, ops.sub y by_, ops.sub z bz)

  abbrev pub norm : Vector → ℕ
  norm (x, y, z) = ops.sqrt (ops.add (ops.add (ops.mul x x) (ops.mul y y)) (ops.mul z z))

  -- A field whose strength is that of the earth.
  abbrev pub plausible : Vector → Option Vector
  plausible mag =
      if ops.le mag_min_magnitude_ut (norm mag) && ops.lt (norm mag) mag_max_magnitude_ut
      then some mag
      else none

  unfoldable pub read_0x05 : JoyCon2Kind → List ℕ → Option Vector → Option ParsedJc2Report
  read_0x05 kind buf mag_bias_ut = do
    accel ← read_i16_3 buf 0x30
    gyro ← read_i16_3 buf 0x36
    mag ← read_i16_3 buf 0x19
    battery_mv ← u16le buf 0x1F
    charging_state ← at buf 0x21
    buttons ← at buf 5
    some (record {
      sample = record {
        timestamp_us = 0;
        gyro = remap_axes kind (scaled gyro gyro_rad_s_per_lsb);
        accel = remap_axes kind (scaled accel accel_m_s2_per_lsb);
        mag = plausible (unbiased mag_bias_ut (remap_axes kind (scaled mag mag_ut_per_lsb)));
      };
      battery = record {
        fraction =
            ops.clamp (ops.div (ops.sub (ops.of_u16 battery_mv) battery_mv_min) battery_mv_range) 0
              f_1_0;
        charging = leb 0x30 charging_state;
      };
      home_pressed = not (buttons / 16 % 2 == 0);
      capture_pressed = not (buttons / 32 % 2 == 0);
    })

  unfoldable pub parse_input_report_0x05 :
      JoyCon2Kind → List ℕ → Option Vector → Option (Option ParsedJc2Report)
  parse_input_report_0x05 kind buf mag_bias_ut =
      let read = read_0x05 kind buf mag_bias_ut >>= (λ r. some (some r)) in
      if ltb (length buf) report_0x05_len then some none else read
