-- ===== src/Core/Pipeline/Announce.antt =====
-- crates/core/src/pipeline.rs: the order of what the pipeline tells the server of the sensor.
use everything_imu.Prelude.{
  ℕ, List, [], ◌∷◌, Option, none, some, Bool, true, false, not, ◌≡◌, ◌⊎◌, inr, refl, if_cases,
}
use everything_imu.Remote.Protocol.{ImuSample, Vector}
use everything_imu.Remote.Device.{
  ChannelInfo, connected, imu_samples, battery, reset_requested, disconnected,
}
use everything_imu.Core.Pipeline.{
  MagCalCommand, no_command, start_cal, finish_cal, cancel_cal, Note, rotation_and_accel,
  magnetometer, battery_level, user_action, Pipeline, new_pipeline, Outside, AppError, announce,
  last_mag, send_mag, timed, take_batch, on_samples, attempt, on_event, handle_event,
  handle_mag_cal_cmd, Arm, command, event, and_then, run,
}
use everything_imu.Core.Pipeline.Stages.{
  Stage, fresh, informed, flagged, advance, protocol, stage, IsAnnounced, noted,
  announce-IsAnnounced,
}

-- A result whose pipeline is announced.
abbrev EndsAnnounced : Pipeline × Option AppError → Type 0
EndsAnnounced r = IsAnnounced r.0

timed-IsAnnounced :
    (d : ℕ) (r : Pipeline × Option AppError) → EndsAnnounced r → EndsAnnounced (timed d r)
timed-IsAnnounced d (p, none) a = record { follows = a.follows; in_order = a.in_order }
timed-IsAnnounced d (p, some e) a = a

send_mag-IsAnnounced :
    (enabled ok : Bool) (corrected : Vector → Vector) (m : Option Vector) (p : Pipeline)
    → IsAnnounced p
    → EndsAnnounced (send_mag enabled ok corrected m p)
send_mag-IsAnnounced enabled ok corrected none p a = a
send_mag-IsAnnounced enabled ok corrected (some m) p a =
    if_cases EndsAnnounced (not enabled) (λ e. a)
      (λ e.
        if_cases EndsAnnounced ok (λ f. noted (magnetometer (corrected m)) p (λ s. same s) a)
          (λ f. a))
  where
    same : (s : Stage) → advance s (magnetometer (corrected m)) ≡ some s
    same fresh = refl
    same informed = refl
    same flagged = refl

rotation_kept : (s : Stage) → advance s rotation_and_accel ≡ some s
rotation_kept fresh = refl
rotation_kept informed = refl
rotation_kept flagged = refl

on_samples-IsAnnounced :
    (samples : List ImuSample) (o : Outside) (p : Pipeline)
    → IsAnnounced p
    → EndsAnnounced (on_samples samples o p)
unfolding on_samples
on_samples-IsAnnounced [] o p a = a
on_samples-IsAnnounced (s ∷ ss) o p a =
    let p' = take_batch (s ∷ ss) o p in
    let a' : IsAnnounced p' = record { follows = a.follows; in_order = a.in_order } in
    if_cases EndsAnnounced o.paused (λ e. a')
      (λ e.
        if_cases EndsAnnounced o.data_ok
          (λ f. timed-IsAnnounced o.send_time _ (
            send_mag-IsAnnounced o.mag_enabled o.mag_ok o.corrected (last_mag (s ∷ ss)) _
              (noted rotation_and_accel p' rotation_kept a')))
          (λ f. a'))

attempt-IsAnnounced :
    (ok : Bool) (n : Note) (p : Pipeline)
    → ((s : Stage) → advance s n ≡ some s)
    → IsAnnounced p
    → EndsAnnounced (attempt ok n p)
attempt-IsAnnounced ok n p h a = if_cases EndsAnnounced ok (λ e. noted n p h a) (λ e. a)

on_event-IsAnnounced :
    (evt : ChannelInfo) (o : Outside) (p : Pipeline)
    → IsAnnounced p
    → EndsAnnounced (on_event evt o p)
unfolding on_event
on_event-IsAnnounced (connected mac handle) o p a = a
on_event-IsAnnounced (imu_samples samples) o p a = on_samples-IsAnnounced samples o p a
on_event-IsAnnounced (battery fraction charging) o p a =
    let a' : IsAnnounced (record p { battery_fraction = some fraction }) = record {
      follows = a.follows;
      in_order = a.in_order;
    } in
    if_cases EndsAnnounced o.paused (λ e. a')
      (λ e. attempt-IsAnnounced o.battery_ok (battery_level fraction) _ same a')
  where
    same : (s : Stage) → advance s (battery_level fraction) ≡ some s
    same fresh = refl
    same informed = refl
    same flagged = refl
on_event-IsAnnounced (reset_requested kind) o p a =
    attempt-IsAnnounced o.action_ok (user_action kind) p same a
  where
    same : (s : Stage) → advance s (user_action kind) ≡ some s
    same fresh = refl
    same informed = refl
    same flagged = refl
on_event-IsAnnounced disconnected o p a = a

handle_event-IsAnnounced :
    (evt : ChannelInfo) (o : Outside) (p : Pipeline)
    → IsAnnounced p
    → EndsAnnounced (handle_event evt o p)
unfolding handle_event
handle_event-IsAnnounced evt o p a =
    if_cases EndsAnnounced o.connects
      (λ e. on_event-IsAnnounced evt o (announce o p) (announce-IsAnnounced o p a)) (λ e. a)

handle_mag_cal_cmd-IsAnnounced :
    (c : MagCalCommand) (p : Pipeline) → IsAnnounced p → IsAnnounced (handle_mag_cal_cmd c p)
unfolding handle_mag_cal_cmd
handle_mag_cal_cmd-IsAnnounced no_command p a = a
handle_mag_cal_cmd-IsAnnounced start_cal p a = record { follows = a.follows; in_order = a.in_order }
handle_mag_cal_cmd-IsAnnounced cancel_cal p a = record {
  follows = a.follows;
  in_order = a.in_order;
}
handle_mag_cal_cmd-IsAnnounced finish_cal p a = record {
  follows = a.follows;
  in_order = a.in_order;
}

run-IsAnnounced : (inputs : List Arm) (p : Pipeline) → IsAnnounced p → EndsAnnounced (run inputs p)
unfolding run
run-IsAnnounced [] p a = a
run-IsAnnounced (command c ∷ more) p a =
    run-IsAnnounced more _ (handle_mag_cal_cmd-IsAnnounced c p a)
run-IsAnnounced (event evt o ∷ more) p a =
    next (handle_event evt o p) (handle_event-IsAnnounced evt o p a) (run-IsAnnounced more)
  where
    next :
        (r : Pipeline × Option AppError)
        → EndsAnnounced r
        → ((q : Pipeline) → IsAnnounced q → EndsAnnounced (run more q))
        → EndsAnnounced (and_then r (run more))
    next (q, none) b h = h q b
    next (q, some e) b h = b

-- In everything that the pipeline of a new device sends, whatever events, commands, connection
-- losses and failed sends come, the feature flags come at most once between two events without a
-- confirmed handshake, and only behind a description of the sensor; the two flags of the pipeline
-- tell which of the two has been sent since the last such event, and the second is never set without
-- the first.
pub run-protocol :
    (has_magnetometer : Bool) (inputs : List Arm)
    → let p = (run inputs (new_pipeline has_magnetometer)).0 in
      (protocol fresh p.sent ≡ some (stage p))
      × ((p.sensor_info_sent ≡ true) ⊎ (p.feature_flags_sent ≡ false))
unfolding new_pipeline
run-protocol has_magnetometer inputs =
    let a =
      run-IsAnnounced inputs (new_pipeline has_magnetometer)
        (record { follows = refl; in_order = inr refl }) in
    (a.follows, a.in_order)
