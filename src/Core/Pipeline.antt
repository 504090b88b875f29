-- ===== src/Core/Pipeline.antt =====
-- The event loop of crates/core/src/pipeline.rs: what a device's pipeline sends to the server, and
-- when it ends. The fusion filters and the rotation that they give are left out, and so is the fit of
-- the magnetometer. What happens outside of the pipeline during one event is an argument.
pub mod Stages
pub mod Announce
use everything_imu.Prelude.{
  ℕ, suc, ◌+◌, ◌-◌, List, [], ◌∷◌, ◌++◌, Option, none, some, Bool, true, false, not, ◌&&◌, ◌||◌,
  ltb, ◌==◌, if◌then◌else◌, length,
}
use everything_imu.Traits.Reset.{ResetKind}
use everything_imu.Remote.Protocol.{ImuSample, Vector}
use everything_imu.Remote.Device.{
  ChannelInfo, connected, imu_samples, battery, reset_requested, disconnected,
}
use everything_imu.Core.Latency.{LatencyTracker, new_tracker, record_arrival, record_send}

abbrev pub mag_cal_buffer_cap : ℕ
mag_cal_buffer_cap = 4000

pub data MagCalCommand : Type 0 where
  no_command start_cal finish_cal cancel_cal : MagCalCommand

-- A packet that was sent; `unconfirmed` marks an event before which the handshake was not confirmed.
pub data Note : Type 0 where
  unconfirmed : Note
  sensor_info : (mag_config : ℕ) → Note
  feature_flags : Note
  rotation_and_accel : Note
  magnetometer : Vector → Note
  battery_level : (fraction : ℕ) → Note
  user_action : ResetKind → Note

pub record Pipeline : Type 0 where
  pub has_magnetometer : Bool
  pub sensor_info_sent : Bool
  pub last_sensor_mag_config : Option ℕ
  pub feature_flags_sent : Bool
  pub mag_cal_active : Bool
  pub mag_cal_buffer : List Vector
  pub rate_counter : List ℕ
  pub latency : LatencyTracker
  pub battery_fraction : Option ℕ
  pub sent : List Note

unfoldable pub new_pipeline : Bool → Pipeline
unfolding new_tracker
new_pipeline has_magnetometer = record {
  has_magnetometer = has_magnetometer;
  sensor_info_sent = false;
  last_sensor_mag_config = none;
  feature_flags_sent = false;
  mag_cal_active = false;
  mag_cal_buffer = [];
  rate_counter = [];
  latency = new_tracker;
  battery_fraction = none;
  sent = [];
}

-- Whether the connection stands and is confirmed, how each send ends, the settings at the two places
-- where they are read, and the readings of the clock, in nanoseconds.
pub record Outside : Type 0 where
  pub connects : Bool
  pub confirmed : Bool
  pub info_ok : Bool
  pub flags_ok : Bool
  pub data_ok : Bool
  pub mag_ok : Bool
  pub battery_ok : Bool
  pub action_ok : Bool
  pub announced_mag_enabled : Bool
  pub mag_enabled : Bool
  pub paused : Bool
  pub corrected : Vector → Vector  -- the hard-iron correction, or none
  pub arrival : ℕ
  pub counted : ℕ
  pub send_time : ℕ

pub data AppError : Type 0 where
  slime : AppError
  device_disconnected : AppError

abbrev pub sensor_mag_config : Pipeline → Bool → ℕ
sensor_mag_config p enabled =
    if not p.has_magnetometer then 0x0000 else if enabled then 0x0003 else 0x0002

abbrev pub is_config : Option ℕ → ℕ → Bool
is_config none mag = false
is_config (some m) mag = m == mag

abbrev pub note : Note → Pipeline → Pipeline
note n p = record p { sent = p.sent ++ n ∷ [] }

-- The description of the sensor, if it was not sent or has changed.
abbrev pub announce_info : ℕ → Bool → Pipeline → Pipeline
announce_info mag ok p =
    if not p.sensor_info_sent || not (is_config p.last_sensor_mag_config mag)
    then (if ok
        then record (note (sensor_info mag) p) {
          sensor_info_sent = true;
          last_sensor_mag_config = some mag;
        }
        else p)
    else p

-- The feature flags, once, behind the description of the sensor.
abbrev pub announce_flags : Bool → Pipeline → Pipeline
announce_flags ok p =
    if p.sensor_info_sent && not p.feature_flags_sent
    then (if ok then record (note feature_flags p) { feature_flags_sent = true } else p)
    else p

-- The part of `handle_event` before the event itself.
unfoldable pub announce : Outside → Pipeline → Pipeline
announce o p =
    if not o.confirmed
    then record (note unconfirmed p) {
      sensor_info_sent = false;
      last_sensor_mag_config = none;
      feature_flags_sent = false;
    }
    else announce_flags o.flags_ok
        (announce_info (sensor_mag_config p o.announced_mag_enabled) o.info_ok p)

-- The samples of a calibration session.
abbrev pub collect : List ImuSample → List Vector → List Vector
collect [] buffer = buffer
collect (s ∷ ss) buffer = collect ss (elim s.mag [
  | none ↦ buffer
  | some m ↦ if ltb (length buffer) mag_cal_buffer_cap then buffer ++ m ∷ [] else buffer
])

abbrev repeat : {A : Type 0} → List A → ℕ → List ℕ
repeat [] now = []
repeat (x ∷ xs) now = now ∷ repeat xs now

-- The loop that drops the arrivals older than a second.
abbrev pub drop_old : ℕ → List ℕ → List ℕ
drop_old now [] = []
drop_old now (t ∷ ts) =
    let rest = drop_old now ts in if ltb 1000000000 (now - t) then rest else t ∷ ts

abbrev pub last_mag : List ImuSample → Option Vector
last_mag [] = none
last_mag (s ∷ []) = s.mag
last_mag (s ∷ t ∷ ts) = last_mag (t ∷ ts)

-- The magnetometer behind the rotation, if it is enabled and was measured.
abbrev pub send_mag :
    Bool → Bool → (Vector → Vector) → Option Vector → Pipeline → Pipeline × Option AppError
send_mag enabled ok corrected none p = (p, none)
send_mag enabled ok corrected (some m) p =
    if not enabled
    then (p, none)
    else if ok
    then (note (magnetometer (corrected m)) p, none)
    else (p, some slime)

abbrev pub timed : ℕ → Pipeline × Option AppError → Pipeline × Option AppError
timed d (p, none) = (record p { latency = record_send p.latency d }, none)
timed d (p, some e) = (p, some e)

-- The bookkeeping of a batch.
abbrev pub take_batch : List ImuSample → Outside → Pipeline → Pipeline
take_batch samples o p = record p {
  latency = (record_arrival p.latency o.arrival).0;
  mag_cal_buffer = if p.mag_cal_active then collect samples p.mag_cal_buffer else p.mag_cal_buffer;
  rate_counter = drop_old o.counted (p.rate_counter ++ repeat samples o.counted);
}

abbrev pub send_batch : List ImuSample → Outside → Pipeline → Pipeline × Option AppError
send_batch samples o p =
    if o.paused
    then (p, none)
    else if o.data_ok
    then timed o.send_time
        (send_mag o.mag_enabled o.mag_ok o.corrected (last_mag samples) (note rotation_and_accel p))
    else (p, some slime)

unfoldable pub on_samples : List ImuSample → Outside → Pipeline → Pipeline × Option AppError
on_samples [] o p = (p, none)
on_samples (s ∷ ss) o p = send_batch (s ∷ ss) o (take_batch (s ∷ ss) o p)

abbrev pub attempt : Bool → Note → Pipeline → Pipeline × Option AppError
attempt ok n p = if ok then (note n p, none) else (p, some slime)

unfoldable pub on_event : ChannelInfo → Outside → Pipeline → Pipeline × Option AppError
unfolding on_samples
on_event (connected mac handle) o p = (p, none)
on_event (imu_samples samples) o p = on_samples samples o p
on_event (battery fraction charging) o p =
    let p' = record p { battery_fraction = some fraction } in
    if o.paused then (p', none) else attempt o.battery_ok (battery_level fraction) p'
on_event (reset_requested kind) o p = attempt o.action_ok (user_action kind) p
on_event disconnected o p = (p, some device_disconnected)

-- An event that comes while the server cannot be reached is dropped.
unfoldable pub handle_event : ChannelInfo → Outside → Pipeline → Pipeline × Option AppError
handle_event evt o p = if o.connects then on_event evt o (announce o p) else (p, none)

-- The state of a calibration session; the fit of `Finish` is left out.
unfoldable pub handle_mag_cal_cmd : MagCalCommand → Pipeline → Pipeline
handle_mag_cal_cmd no_command p = p
handle_mag_cal_cmd start_cal p = record p { mag_cal_buffer = []; mag_cal_active = true }
handle_mag_cal_cmd cancel_cal p = record p { mag_cal_buffer = []; mag_cal_active = false }
handle_mag_cal_cmd finish_cal p = record p { mag_cal_buffer = []; mag_cal_active = false }

pub data Arm : Type 0 where
  command : MagCalCommand → Arm
  event : ChannelInfo → Outside → Arm

abbrev pub and_then :
    Pipeline × Option AppError
    → (Pipeline → Pipeline × Option AppError)
    → Pipeline × Option AppError
and_then (p, none) next = next p
and_then (p, some e) next = (p, some e)

-- The loop of `run`, up to its stop at the end of the list or at the first error.
unfoldable pub run : List Arm → Pipeline → Pipeline × Option AppError
run [] p = (p, none)
run (command c ∷ more) p = run more (handle_mag_cal_cmd c p)
run (event evt o ∷ more) p = and_then (handle_event evt o p) (run more)
