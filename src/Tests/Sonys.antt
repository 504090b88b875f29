-- ===== src/Tests/Sonys.antt =====
-- Reports of a DualSense, over USB and over Bluetooth.
use everything_imu.Prelude.{
  ℕ, zero, suc, ◌+◌, ◌-◌, ltb, leb, List, [], ◌∷◌, ◌++◌, none, some, true, false, from_le, ◌≡◌,
  refl, arith,
}
use everything_imu.Remote.Device.{imu_samples, battery}
use everything_imu.PsMove.Report.{Outbox}
use everything_imu.DualSense.Report.{
  FloatOps, dual_sense, dual_shock_4, parse_report, parse_at, parse_ps_button, ps_button_at,
  for_report, read_i16_le, read_u32_le, read_vector, sensor_timestamp_us,
}
use everything_imu.DualSense.Report.Bluetooth.{parse_report-bluetooth}
use everything_imu.DualSense.Report.Calibration.{parse_feature_calibration}

-- A processor whose numbers are whole and that leaves every scale out.
abbrev whole : FloatOps
whole = record {
  sub = λ a b. a - b;
  add = ◌+◌;
  mul = λ a b. a;
  div = λ a b. a;
  abs = λ a. a;
  lt = ltb;
  le = leb;
  clamp = λ a lo hi. a;
  of_i16 = λ a. a;
  of_u8 = λ a. a;
}

abbrev zeros : ℕ → List ℕ
zeros zero = []
zeros (suc n) = 0 ∷ zeros n

-- The button is down, the first gyroscope reads 1000, and three thirds of a microsecond have passed.
abbrev payload : List ℕ
payload =
    zeros 9 ++ (1 ∷ (zeros 5 ++ (0xE8 ∷ 3 ∷ (zeros 10 ++ (3 ∷ (zeros 24 ++ (0x15 ∷ zeros 10)))))))

abbrev open_box : Outbox
open_box = record { sent = []; room = 2 }

reads_usb : parse_report whole dual_sense (1 ∷ payload) none open_box ≡ (
  true,
  record {
    sent =
        imu_samples
          (record { timestamp_us = 1; gyro = (1000, 0, 0); accel = (0, 0, 0); mag = none } ∷ [])
        ∷ battery 5 true
        ∷ [];
    room = 0;
  },
)
unfolding parse_report parse_at for_report read_vector read_i16_le read_u32_le sensor_timestamp_us
    from_le
reads_usb = refl

reads_button : parse_ps_button dual_sense (1 ∷ payload) ≡ some true
unfolding parse_ps_button ps_button_at for_report
reads_button = refl

refuses_other : parse_report whole dual_shock_4 payload none open_box ≡ (false, open_box)
unfolding parse_report for_report
refuses_other = refl

refuses_calibration : parse_feature_calibration whole dual_shock_4 7 (zeros 35) ≡ none
unfolding parse_feature_calibration
refuses_calibration = refl

parse_report-bluetooth_example :
    (parse_report whole dual_sense (0x31 ∷ 0x10 ∷ (payload ++ zeros 13)) none open_box
      ≡ parse_report whole dual_sense (1 ∷ payload) none open_box)
    × (parse_ps_button dual_sense (0x31 ∷ 0x10 ∷ (payload ++ zeros 13))
        ≡ parse_ps_button dual_sense (1 ∷ payload))
parse_report-bluetooth_example =
    parse_report-bluetooth whole none open_box dual_sense 1 (0x31 ∷ 0x10 ∷ []) payload (zeros 13)
      refl refl (omega arith)
