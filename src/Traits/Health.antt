-- ===== src/Traits/Health.antt =====
-- `HealthClassifier` of crates/device-traits/src/health.rs. An `Instant` and a `Duration` are
-- numbers of one unit (milliseconds in the tests). A count is far below 2 ^ 53, so that the `f64`
-- comparison with `target_hz as f64 * 0.9` is the comparison of whole numbers written here: the
-- product rounds to the whole number wherever it is one.
pub mod History
pub mod Window
use everything_imu.Prelude.{
  ℕ, ◌-◌, ◌*◌, List, [], ◌∷◌, ◌++◌, length, Bool, true, false, ◌||◌, Option, none, some, ltb, leb,
  if◌then◌else◌,
}

pub data DeviceHealth : Type 0 where
  healthy laggy_imu no_imu disconnected : DeviceHealth

pub record HealthClassifier : Type 0 where
  pub target_hz : ℕ
  pub window : ℕ
  pub no_imu_after : ℕ
  pub samples : List ℕ
  pub last_seen : Option ℕ
  pub is_disconnected : Bool

unfoldable pub new : ℕ → HealthClassifier
new target_hz = record {
  target_hz = target_hz;
  window = 1000;
  no_imu_after = 2000;
  samples = [];
  last_seen = none;
  is_disconnected = false;
}

-- `now.checked_sub(window).unwrap_or(now)`.
abbrev pub cutoff : ℕ → ℕ → ℕ
cutoff window now = if ltb now window then now else now - window

-- The loop that takes the old samples off the front.
abbrev pub prune : ℕ → List ℕ → List ℕ
prune limit [] = []
prune limit (t ∷ ts) = let rest = prune limit ts in if ltb t limit then rest else t ∷ ts

unfoldable pub record_sample : HealthClassifier → ℕ → HealthClassifier
record_sample c now = record c {
  last_seen = some now;
  is_disconnected = false;
  samples = prune (cutoff c.window now) (c.samples ++ now ∷ []);
}

unfoldable pub record_disconnect : HealthClassifier → HealthClassifier
record_disconnect c = record c { is_disconnected = true }

-- `last_age < no_imu_after`, where no sample at all counts as the longest age.
abbrev pub is_recent : Option ℕ → ℕ → ℕ → Bool
is_recent none no_imu_after now = false
is_recent (some t) no_imu_after now = ltb (now - t) no_imu_after

-- The verdict on `count` samples in the window.
abbrev pub verdict : ℕ → ℕ → Bool → DeviceHealth
verdict target_hz count recent =
    if leb (9 * target_hz) (10 * count)
    then healthy
    else if ltb 0 count || recent
    then laggy_imu
    else no_imu

unfoldable pub classify : HealthClassifier → ℕ → HealthClassifier × DeviceHealth
classify c now =
    let samples = prune (cutoff c.window now) c.samples in
    if c.is_disconnected then (c, disconnected) else (
      record c { samples = samples },
      verdict c.target_hz (length samples) (is_recent c.last_seen c.no_imu_after now),
    )
