-- ===== src/Tests/Moves.antt =====
-- Reports of a PS Move.
use everything_imu.Prelude.{◌+◌, ◌-◌, [], ◌∷◌, some, true, false, max, ◌≡◌, refl, arith}
use everything_imu.Remote.Device.{imu_samples, battery}
use everything_imu.PsMove.Report.{
  FloatOps, zcm1, zcm2, from_pid, identity, ReportClock, new_clock, Outbox, f_1_0, smoothed_dt,
  tick, sign_extend_12, parse_report,
}
use everything_imu.PsMove.Report.RoundTrip.{Frame, wire_report, sample_of, parse_report-wire_report}
use everything_imu.PsMove.Report.Clock.{Advances, stamps_of, HasRoom, stamps_of-Advances}

-- A processor whose numbers are whole; 1.0 is one, and everything that was smoothed counts.
abbrev whole : FloatOps
whole = record {
  add = ◌+◌;
  sub = λ a b. a - b;
  mul = λ a b. a;
  max_of = λ a b. max a 1;
  of_i32 = λ a. a;
  of_u128 = λ a. a;
  to_u64 = λ a. a;
}

abbrev at_rest : Frame
at_rest = record { accel = (1, 2, 3); gyro = (4, 5, 6) }

abbrev turning : Frame
turning = record { accel = (0xFFFF, 8, 9); gyro = (10, 11, 12) }

abbrev open_box : Outbox
open_box = record { sent = []; room = 2 }

parse_report-wire_report_example :
    let t = tick whole new_clock 0 in
    parse_report whole zcm1
      (wire_report zcm1 (λ i. 0) 5 at_rest turning (1, 2, 3))
      new_clock
      0
      identity
      open_box
    ≡ (
      t.0,
      (
        true,
        record {
          sent =
              imu_samples (
                sample_of whole identity (some (1, 2, 3)) t.1.0 at_rest
                ∷ sample_of whole identity (some (1, 2, 3)) t.1.1 turning
                ∷ [])
              ∷ battery f_1_0 false
              ∷ [];
          room = 0;
        },
      ),
    )
unfolding tick smoothed_dt sign_extend_12
parse_report-wire_report_example =
    parse_report-wire_report whole zcm1 (λ i. 0) 5 at_rest turning (1, 2, 3) new_clock 0 identity
      open_box (omega arith, omega arith, omega arith) (omega arith, omega arith, omega arith)
      (omega arith, omega arith, omega arith) (omega arith, omega arith, omega arith)
      (omega arith, omega arith, omega arith)

-- A report that is too short gives nothing.
refuses_short :
    (parse_report whole zcm2 (1 ∷ 2 ∷ 3 ∷ []) new_clock 0 identity open_box).1 ≡ (false, open_box)
unfolding parse_report
refuses_short = refl

knows_zcm2 : from_pid 0x0C5E ≡ some zcm2
knows_zcm2 = refl

abbrev started : ReportClock
started = record { last = some 0; accum_us = 7; ema_dt_us = 5000 }

leaves_room : HasRoom whole started (5000000 ∷ 9000000 ∷ [])
unfolding HasRoom smoothed_dt tick
leaves_room = (omega arith, (omega arith, tt))

stamps_of-Advances_example : Advances 7 (stamps_of whole started (5000000 ∷ 9000000 ∷ []))
stamps_of-Advances_example =
    stamps_of-Advances whole (λ x. omega arith) started (5000000 ∷ 9000000 ∷ []) leaves_room
