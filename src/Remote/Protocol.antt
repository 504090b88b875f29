-- ===== src/Remote/Protocol.antt =====
-- `parse` and the encoders of crates/device-remote/src/protocol.rs. The outer `Option` of `parse` and
-- of what it calls is `none` where Rust panics on a read out of range; the inner one is the code's.
pub mod Motion
pub mod Wire
pub mod Total
pub mod Samples
pub mod RoundTrip
use everything_imu.Prelude.{
  ℕ, zero, suc, ◌+◌, ◌*◌, List, [], ◌∷◌, ◌++◌, Option, none, some, Bool, true, false, not, ◌&&◌,
  ltb, leb, ◌==◌, if◌then◌else◌, length, to_le,
}
use everything_imu.Traits.Reset.{ResetKind, yaw, full}
use everything_imu.Slices.{◌>>=◌, at, slice, same, u16le, f32le, u64le}
use everything_imu.Remote.Utf8.{from_utf8}

abbrev pub magic : List ℕ
magic = 69 ∷ 73 ∷ 77 ∷ 85 ∷ []

abbrev pub version : ℕ
version = 1

pub data DeviceKind : Type 0 where
  joycon_l joycon_r pro_controller charging_grip_l charging_grip_r joycon2_l joycon2_r
        pro_controller2 dual_sense dual_sense_edge dual_shock4 ps_move_zcm1 ps_move_zcm2 wii tesla
        steam_deck steam_controller hopx three_ds vita dual_shock3 phone watch gamepad :
      DeviceKind

unfoldable pub kind_from_wire : ℕ → Option DeviceKind
kind_from_wire b =
    if b == 1
    then some phone
    else if b == 2
    then some watch
    else if b == 3
    then some joycon2_l
    else if b == 4
    then some joycon2_r
    else if b == 5
    then some pro_controller2
    else if b == 6
    then some hopx
    else if b == 7
    then some dual_sense
    else if b == 8
    then some dual_shock4
    else if b == 9
    then some joycon_l
    else if b == 10
    then some joycon_r
    else if b == 11
    then some pro_controller
    else if b == 12
    then some gamepad
    else none

-- `[f32; 3]`.
abbrev pub Vector : Type 0
Vector = ℕ × ℕ × ℕ

pub record ImuSample : Type 0 where
  pub timestamp_us : ℕ
  pub gyro : Vector
  pub accel : Vector
  pub mag : Option Vector

pub record Announce : Type 0 where
  pub handle : ℕ
  pub kind : DeviceKind
  pub mac : List ℕ
  pub has_mag : Bool
  pub has_battery : Bool
  pub has_rumble : Bool
  pub rate_hz : ℕ
  pub name : List ℕ

pub data RemoteMsg : Type 0 where
  hello : (uuid name : List ℕ) (ts : Option ℕ) → RemoteMsg
  announce : Announce → RemoteMsg
  remove : (handle : ℕ) → RemoteMsg
  imu : (handle : ℕ) (seq : Option ℕ) (samples : List ImuSample) → RemoteMsg
  battery : (handle fraction : ℕ) (charging : Bool) → RemoteMsg
  button : (handle : ℕ) (reset : ResetKind) → RemoteMsg

-- `x != 0`.
abbrev pub nonzero : ℕ → Bool
nonzero x = not (x == 0)

unfoldable pub read_vector : List ℕ → ℕ → Option Vector
read_vector p o = do x ← f32le p o; y ← f32le p (o + 4); z ← f32le p (o + 8); some (x, y, z)

read_mag : List ℕ → ℕ → Bool → Option (Option Vector)
unfolding read_vector
read_mag p o true = do v ← read_vector p o; some (some v)
read_mag p o false = some none

-- The body of the `for` loop: one sample of 45 bytes.
unfoldable pub read_sample : List ℕ → ℕ → Option ImuSample
unfolding read_vector read_mag
read_sample p off = do
  ts ← u64le p off
  has_mag ← at p (off + 32)
  gyro ← read_vector p (off + 8)
  accel ← read_vector p (off + 20)
  mag ← read_mag p (off + 33) (nonzero has_mag)
  some (record { timestamp_us = ts; gyro = gyro; accel = accel; mag = mag })

-- `count` samples from `off` on.
unfoldable pub read_samples : List ℕ → ℕ → ℕ → Option (List ImuSample)
unfolding read_sample
read_samples p off zero = some []
read_samples p off (suc count) = do
  sample ← read_sample p off
  samples ← read_samples p (off + 45) count
  some (sample ∷ samples)

unfoldable pub parse_imu_samples : List ℕ → ℕ → Option (Option (ℕ × List ImuSample))
unfolding read_samples
parse_imu_samples p extra = if ltb (length p) (3 + extra) then some none else do
  handle ← u16le p 0
  count ← at p (2 + extra)
  if ltb (length p) (3 + extra + count * 45)
      then some none
      else do samples ← read_samples p (3 + extra) count; some (some (handle, samples))

abbrev pub imu_msg : Option ℕ → Option (ℕ × List ImuSample) → Option RemoteMsg
imu_msg seq none = none
imu_msg seq (some (handle, samples)) = some (imu handle seq samples)

-- The optional timestamp behind the name.
read_ts : List ℕ → Option (Option ℕ)
read_ts tail = if leb 8 (length tail) then (do ts ← u64le tail 0; some (some ts)) else some none

abbrev pub hello_msg : List ℕ → Option (List ℕ) → Option ℕ → Option RemoteMsg
hello_msg uuid none ts = none
hello_msg uuid (some name) ts = some (hello uuid name ts)

unfoldable pub parse_hello : List ℕ → Option (Option RemoteMsg)
unfolding read_ts
parse_hello p = if ltb (length p) 17 then some none else do
  uuid ← slice p 0 16
  n ← at p 16
  if ltb (length p) (17 + n) then some none else do
    name ← slice p 17 (17 + n)
    tail ← slice p (17 + n) (length p)
    ts ← read_ts tail
    some (hello_msg uuid (from_utf8 name) ts)

-- The fields that `parse` reads behind the test of the kind and the name.
read_announce : List ℕ → DeviceKind → ℕ → List ℕ → List ℕ → Option (Option RemoteMsg)
read_announce p kind handle mac name = do
  has_mag ← at p 9
  has_battery ← at p 10
  has_rumble ← at p 11
  rate_hz ← u16le p 12
  some (
      some (
        announce (record {
          handle = handle;
          kind = kind;
          mac = mac;
          has_mag = nonzero has_mag;
          has_battery = nonzero has_battery;
          has_rumble = nonzero has_rumble;
          rate_hz = rate_hz;
          name = name;
        })))

-- `from_utf8(..).ok()?`: what follows runs with the name.
abbrev or_return {ℓ} :
    {A : Type ℓ} → Option A → (A → Option (Option RemoteMsg)) → Option (Option RemoteMsg)
or_return none next = some none
or_return (some a) next = next a

unfoldable pub parse_announce : List ℕ → Option (Option RemoteMsg)
unfolding read_announce
parse_announce p = if ltb (length p) 15 then some none else do
  handle ← u16le p 0
  b ← at p 2
  or_return (kind_from_wire b) (λ kind. (do
    mac ← slice p 3 9
    n ← at p 14
    if ltb (length p) (15 + n) then some none else do
      bytes ← slice p 15 (15 + n)
      or_return (from_utf8 bytes) (λ name. read_announce p kind handle mac name)))

unfoldable pub parse_battery : List ℕ → Option (Option RemoteMsg)
parse_battery p = if ltb (length p) 7 then some none else do
  handle ← u16le p 0
  fraction ← f32le p 2
  charging ← at p 6
  some (some (battery handle fraction (nonzero charging)))

unfoldable pub parse_button : List ℕ → Option (Option RemoteMsg)
parse_button p = if ltb (length p) 3 then some none else do
  reset ← at p 2
  handle ← u16le p 0
  some (some (button handle (if reset == 0 then yaw else full)))

unfoldable pub parse_imu2 : List ℕ → Option (Option RemoteMsg)
unfolding parse_imu_samples
parse_imu2 p =
    if ltb (length p) 5
    then some none
    else do seq ← u16le p 2; r ← parse_imu_samples p 2; some (imu_msg (some seq) r)

-- The `match` on the message id.
unfoldable pub parse_body : ℕ → List ℕ → Option (Option RemoteMsg)
unfolding parse_hello parse_announce parse_imu_samples parse_imu2 parse_battery parse_button
parse_body msg p =
    if msg == 1
    then parse_hello p
    else if msg == 3
    then parse_announce p
    else if msg == 4
    then (if ltb (length p) 2
        then some none
        else (do handle ← u16le p 0; some (some (remove handle))))
    else if msg == 5
    then (do r ← parse_imu_samples p 0; some (imu_msg none r))
    else if msg == 9
    then parse_imu2 p
    else if msg == 6
    then parse_battery p
    else if msg == 7
    then parse_button p
    else some none

unfoldable pub parse : List ℕ → Option (Option RemoteMsg)
unfolding parse_body
parse buf = if ltb (length buf) 6 then some none else do
  front ← slice buf 0 4
  v ← at buf 4
  if not (same front magic && v == version)
      then some none
      else do msg ← at buf 5; p ← slice buf 6 (length buf); parse_body msg p

unfoldable pub encode_hello_ack : List ℕ
encode_hello_ack = magic ++ (version ∷ 2 ∷ version ∷ [])

unfoldable pub encode_hello_ack_echo : Option ℕ → List ℕ
unfolding encode_hello_ack
encode_hello_ack_echo none = encode_hello_ack
encode_hello_ack_echo (some ts) = encode_hello_ack ++ to_le 8 ts

unfoldable pub encode_rumble : ℕ → ℕ → List ℕ
encode_rumble handle intensity = magic ++ (version ∷ 8 ∷ (to_le 2 handle ++ to_le 4 intensity))
