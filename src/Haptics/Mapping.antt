-- ===== src/Haptics/Mapping.antt =====
-- crates/osc-haptics/src/mapping.rs, with the rules of config.rs. An `f32` is its bit pattern and
-- the operations of the processor are a parameter; a MAC address is the number of its bytes, and an
-- address of OSC the list of its bytes.
use everything_imu.Prelude.{ℕ, List, [], ◌∷◌, Option, none, some, Bool, if◌then◌else◌}
use everything_imu.Slices.{same}
use everything_imu.Maps.{retain}

pub record Floats : Type 0 where
  pub lt : ℕ → ℕ → Bool
  pub is_nan : ℕ → Bool
  pub mul : ℕ → ℕ → ℕ
  pub sub : ℕ → ℕ → ℕ
  pub abs : ℕ → ℕ
  pub of_int : ℕ → ℕ
  pub of_double : ℕ → ℕ

-- 0.0, 0.5, 1.0 and 0.03.
abbrev pub f_zero : ℕ
f_zero = 0

abbrev pub f_half : ℕ
f_half = 0x3F000000

abbrev pub f_one : ℕ
f_one = 0x3F800000

abbrev pub intensity_epsilon : ℕ
intensity_epsilon = 0x3CF5C28F

pub data HapticMode : Type 0 where
  proximity : (gain min_threshold : ℕ) → HapticMode
  pulse : (pulse_ms : ℕ) → HapticMode

pub record HapticRule : Type 0 where
  pub osc_address : List ℕ
  pub device_mac : ℕ
  pub mode : HapticMode

pub record HapticAction : Type 0 where
  pub device_mac : ℕ
  pub intensity : ℕ
  pub pulse_ms : Option ℕ

-- The kinds of argument that the source tells apart; a number is its bit pattern.
pub data OscType : Type 0 where
  osc_bool : Bool → OscType
  osc_int osc_float osc_double : ℕ → OscType
  osc_other : OscType

module _ (fl : Floats) where
  unfoldable pub osc_value_to_f32 : OscType → Option ℕ
  osc_value_to_f32 (osc_bool b) = some (if b then f_one else f_zero)
  osc_value_to_f32 (osc_int i) = some (fl.of_int i)
  osc_value_to_f32 (osc_float f) = some f
  osc_value_to_f32 (osc_double d) = some (fl.of_double d)
  osc_value_to_f32 osc_other = none

  unfoldable pub clamp01 : ℕ → ℕ
  clamp01 v =
      if fl.is_nan v
      then f_zero
      else if fl.lt v f_zero
      then f_zero
      else if fl.lt f_one v
      then f_one
      else v

  unfoldable pub apply_mode : ℕ → HapticMode → ℕ → HapticAction
  unfolding clamp01
  apply_mode device_mac (proximity gain min_threshold) value = record {
    device_mac = device_mac;
    intensity = if fl.lt value min_threshold then f_zero else clamp01 (fl.mul value gain);
    pulse_ms = none;
  }
  apply_mode device_mac (pulse pulse_ms) value =
      if fl.lt f_half value
      then record { device_mac = device_mac; intensity = f_one; pulse_ms = some pulse_ms }
      else record { device_mac = device_mac; intensity = f_zero; pulse_ms = none }

  abbrev modes_applied : List HapticRule → ℕ → List HapticAction
  modes_applied [] value = []
  modes_applied (r ∷ rs) value = apply_mode r.device_mac r.mode value ∷ modes_applied rs value

  unfoldable pub resolve : List HapticRule → List ℕ → ℕ → List HapticAction
  unfolding apply_mode
  resolve rules address value = modes_applied (retain (λ r. same r.osc_address address) rules) value
