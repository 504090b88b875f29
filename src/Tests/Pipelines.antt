-- ===== src/Tests/Pipelines.antt =====
-- A pipeline whose server confirms the handshake at the second event.
use everything_imu.Prelude.{List, [], ◌∷◌, some, Bool, true, false, ◌≡◌, ◌⊎◌, refl}
use everything_imu.Traits.Reset.{full}
use everything_imu.Remote.Device.{connected, battery, reset_requested}
use everything_imu.Core.Pipeline.{
  new_pipeline, Outside, start_cal, Arm, command, event, run, unconfirmed, sensor_info,
  feature_flags, battery_level, user_action, announce, on_event, handle_event, handle_mag_cal_cmd,
}
use everything_imu.Core.Pipeline.Stages.{fresh, protocol, stage}
use everything_imu.Core.Pipeline.Announce.{run-protocol}

abbrev outside : (is_confirmed : Bool) → Outside
outside is_confirmed = record {
  connects = true;
  confirmed = is_confirmed;
  info_ok = true;
  flags_ok = true;
  data_ok = true;
  mag_ok = true;
  battery_ok = true;
  action_ok = true;
  announced_mag_enabled = false;
  mag_enabled = false;
  paused = false;
  corrected = λ v. v;
  arrival = 0;
  counted = 0;
  send_time = 0;
}

abbrev inputs : List Arm
inputs =
    event (connected [] 0) (outside false)
    ∷ command start_cal
    ∷ event (battery 1 true) (outside true)
    ∷ event (reset_requested full) (outside true)
    ∷ []

run-protocol_example :
    let p = (run inputs (new_pipeline true)).0 in
    (protocol fresh p.sent ≡ some (stage p))
    × ((p.sensor_info_sent ≡ true) ⊎ (p.feature_flags_sent ≡ false))
run-protocol_example = run-protocol true inputs

sends :
    (run inputs (new_pipeline true)).0.sent
    ≡ unconfirmed ∷ sensor_info 2 ∷ feature_flags ∷ battery_level 1 ∷ user_action full ∷ []
unfolding run new_pipeline announce on_event handle_event handle_mag_cal_cmd
sends = refl
