-- ===== src/Joycon/Report.antt =====
-- Input reports of crates/device-joycon/src/report.rs, and the buttons of reset_buttons.rs. The outer
-- `Option` is `none` where Rust panics on a read out of range. An `i16` or `f32` is its bit pattern.
pub mod Total
pub mod RoundTrip
use everything_imu.Prelude.{
  ℕ, ◌+◌, ◌/◌, ◌%◌, bit_and, List, [], ◌∷◌, Option, none, some, Bool, true, false, not, Result, ok,
  err, ltb, ◌==◌, if◌then◌else◌, length, from_le,
}
use everything_imu.Traits.Reset.{ButtonState, home_or_capture, capture_only}
use everything_imu.Slices.{◌>>=◌, at, slice, u16le, f32le}

-- `[i16; 3]`.
abbrev pub Axes : Type 0
Axes = ℕ × ℕ × ℕ

pub record ImuRawSample : Type 0 where
  pub accel : Axes
  pub gyro : Axes

pub record ButtonsRaw : Type 0 where
  pub low : ℕ
  pub high : ℕ
  pub shared : ℕ

pub record BatteryState : Type 0 where
  pub fraction : ℕ
  pub charging : Bool

pub record InputReport0x30 : Type 0 where
  pub timer : ℕ
  pub battery : BatteryState
  pub buttons : ButtonsRaw
  pub imu_samples : ImuRawSample × ImuRawSample × ImuRawSample

pub data ReportError : Type 0 where
  wrong_length : ℕ → ReportError
  wrong_id : ℕ → ReportError

-- The bit patterns of 1.0, 0.75, 0.5, 0.25 and 0.05.
abbrev pub battery_fraction : ℕ → ℕ
battery_fraction level =
    if level == 4
    then 1065353216
    else if level == 3
    then 1061158912
    else if level == 2
    then 1056964608
    else if level == 1
    then 1048576000
    else 1028443341

unfoldable pub decode_battery : ℕ → BatteryState
decode_battery byte = record {
  fraction = battery_fraction (byte / 32 % 8);
  charging = not (bit_and byte 16 == 0);
}

unfoldable pub read_axes : List ℕ → ℕ → Option Axes
read_axes p o = do x ← u16le p o; y ← u16le p (o + 2); z ← u16le p (o + 4); some (x, y, z)

unfoldable pub parse_imu_sample : List ℕ → Option ImuRawSample
unfolding read_axes
parse_imu_sample p = do
  accel ← read_axes p 0
  gyro ← read_axes p 6
  some (record { accel = accel; gyro = gyro })

-- `parse_imu_sample(&buf[a..b])`.
unfoldable pub sample_at : List ℕ → ℕ → ℕ → Option ImuRawSample
unfolding parse_imu_sample
sample_at buf a b = do p ← slice buf a b; parse_imu_sample p

-- What stands behind the tests of `parse_0x30`.
unfoldable pub read_0x30 : List ℕ → Option InputReport0x30
unfolding sample_at
read_0x30 buf = do
  timer ← at buf 1
  battery ← at buf 2
  low ← at buf 3
  high ← at buf 4
  shared ← at buf 5
  s0 ← sample_at buf 13 25
  s1 ← sample_at buf 25 37
  s2 ← sample_at buf 37 49
  some (record {
    timer = timer;
    battery = decode_battery battery;
    buttons = record { low = low; high = high; shared = shared };
    imu_samples = (s0, s1, s2);
  })

unfoldable pub parse_0x30 : List ℕ → Option (Result ReportError InputReport0x30)
unfolding read_0x30
parse_0x30 buf = if ltb (length buf) 49 then some (err (wrong_length (length buf))) else do
  id ← at buf 0
  if not (id == 48) then some (err (wrong_id id)) else do report ← read_0x30 buf; some (ok report)

pub record SpiReadReply : Type 0 where
  pub addr : ℕ
  pub payload : List ℕ  -- the field `data`

-- The address, the length and the data, behind the tests.
unfoldable pub read_spi_reply : List ℕ → Option (Option SpiReadReply)
read_spi_reply buf = do
  addr ← f32le buf 15
  len ← at buf 19
  if ltb (length buf) (20 + len) then some none else do
    payload ← slice buf 20 (20 + len)
    some (some (record { addr = addr; payload = payload }))

unfoldable pub parse_0x21_spi_reply : List ℕ → Option (Option SpiReadReply)
unfolding read_spi_reply
parse_0x21_spi_reply buf = if ltb (length buf) 20 then some none else do
  id ← at buf 0
  if not (id == 33) then some none else do
    ack ← at buf 13
    if not (ack == 144)
        then some none
        else do subcmd ← at buf 14; if not (subcmd == 16) then some none else read_spi_reply buf

pub data ControllerKind : Type 0 where
  joycon_l joycon_r pro_controller charging_grip_l charging_grip_r : ControllerKind

abbrev pub capture : ButtonsRaw → Bool
capture b = not (bit_and b.shared 32 == 0)

abbrev pub home : ButtonsRaw → Bool
home b = not (bit_and b.shared 16 == 0)

unfoldable pub decode : ControllerKind → ButtonsRaw → ButtonState
decode joycon_l b = capture_only (capture b)
decode charging_grip_l b = capture_only (capture b)
decode joycon_r b = home_or_capture (home b) (capture b)
decode charging_grip_r b = home_or_capture (home b) (capture b)
decode pro_controller b = home_or_capture (home b) (capture b)
