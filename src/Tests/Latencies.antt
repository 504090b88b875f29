-- ===== src/Tests/Latencies.antt =====
-- The latency windows on short histories.
use everything_imu.Prelude.{
  ℕ, ◌+◌, ◌-◌, ◌*◌, ◌/◌, min, max, List, [], ◌∷◌, length, ◌==◌, ◌≡◌, refl, arith,
}
use everything_imu.Core.Latency.{
  Floats, new_history, latest, history_len, history_is_empty, back, new_tracker, snapshot, window,
}
use everything_imu.Core.Latency.Newest.{newest}
use everything_imu.Core.Latency.Windows.{
  Change, pushed, cleared, changed, entries, changed-newest, Event, arrival, sent, tracked,
  arrivals, intervals, durations,
}
use everything_imu.Core.Latency.Percentiles.{IsMonotone, Reports, tracked-snapshot}

-- Four entries after a clear, in a history of three.
abbrev pushes : List (Change ℕ)
pushes = pushed 9 ∷ cleared ∷ pushed 1 ∷ pushed 2 ∷ pushed 3 ∷ pushed 4 ∷ []

changed-newest_example :
    let h = changed (new_history 3) pushes in
    let all = entries [] pushes in
    (h.samples ≡ newest (max 3 1) all)
    × (latest h ≡ back all)
    × (history_len h ≡ min (max 3 1) (length all))
    × (history_is_empty h ≡ (length all == 0))
    × (h.cap ≡ max 3 1)
changed-newest_example = changed-newest 3 pushes

newest_three : newest (max 3 1) (entries [] pushes) ≡ 2 ∷ 3 ∷ 4 ∷ []
newest_three = refl

-- Numbers in hundredths.
abbrev hundredths : Floats
hundredths = record {
  F32 = ℕ;
  F64 = ℕ;
  f32_of = λ n. n * 100;
  f32_sub = λ a b. a - b;
  f32_mul = λ a b. a * b / 100;
  f32_round = λ a. (a + 50) / 100;
  p50 = 50;
  p95 = 95;
  p99 = 99;
  f64_of = λ n. n * 100;
  f64_add = λ a b. a + b;
  f64_sub = λ a b. a - b;
  f64_mul = λ a b. a * b / 100;
  f64_div = λ a b. a;
  f64_sqrt = λ a. a;
  f64_to_f32 = λ a. a;
}

hundredths-IsMonotone : IsMonotone hundredths
hundredths-IsMonotone = record { half_below = λ n. omega arith; tail_below = λ n. omega arith }

-- Batches after one, four and one milliseconds.
abbrev batches : List Event
batches = arrival 0 ∷ arrival 1000000 ∷ sent 2000 ∷ arrival 5000000 ∷ arrival 6000000 ∷ []

tracked-snapshot_example :
    Reports hundredths
      (newest window (intervals (arrivals batches)))
      (newest window (durations batches))
      (snapshot hundredths (tracked new_tracker batches))
tracked-snapshot_example = tracked-snapshot hundredths batches hundredths-IsMonotone
