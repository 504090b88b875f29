-- ===== src/Core/Latency.antt =====
-- crates/core/src/latency.rs. An `Instant` and a `Duration` are numbers of nanoseconds. The
-- floating-point operations of the processor are a parameter; `sort_unstable` gives the sorted
-- list, written as an insertion sort. A snapshot in a history is of any type: the history only
-- moves it.
pub mod Newest
pub mod Windows
pub mod Sorted
pub mod Percentiles
use everything_imu.Prelude.{
  ℕ, zero, suc, ◌+◌, ◌-◌, ◌*◌, ◌/◌, ◌^◌, min, max, List, [], ◌∷◌, ◌++◌, map, length, get_or, drop,
  Bool, true, false, Option, none, some, ltb, leb, ◌==◌, if◌then◌else◌,
}

-- The operations on `f32` and `f64` that the module uses.
pub record Floats : Type 1 where
  pub F32 : Type 0
  pub F64 : Type 0
  -- The number read as an `f32`, less 1.0, times the second argument, rounded: `as usize`.
  pub f32_of : ℕ → F32
  pub f32_sub : F32 → F32 → F32
  pub f32_mul : F32 → F32 → F32
  pub f32_round : F32 → ℕ
  pub p50 : F32
  pub p95 : F32
  pub p99 : F32
  pub f64_of : ℕ → F64
  pub f64_add : F64 → F64 → F64
  pub f64_sub : F64 → F64 → F64
  pub f64_mul : F64 → F64 → F64
  pub f64_div : F64 → F64 → F64
  pub f64_sqrt : F64 → F64
  pub f64_to_f32 : F64 → F32

abbrev pub window : ℕ
window = 256

abbrev pub default_history_len : ℕ
default_history_len = 120

abbrev pub u32_max : ℕ
u32_max = 2 ^ 32 - 1

pub record LatencyTracker : Type 0 where
  pub intervals_us : List ℕ
  pub sends_us : List ℕ
  pub prev_arrival : Option ℕ

unfoldable pub new_tracker : LatencyTracker
new_tracker = record { intervals_us = []; sends_us = []; prev_arrival = none }

-- `pop_front` on a queue.
abbrev pub pop_front {ℓ} : {A : Type ℓ} → List A → List A
pop_front q = drop 1 q

abbrev pub back {ℓ} : {A : Type ℓ} → List A → Option A
back [] = none
back (x ∷ []) = some x
back (x ∷ y ∷ ys) = back (y ∷ ys)

abbrev pub push_capped : List ℕ → ℕ → List ℕ
push_capped q v = (if length q == window then pop_front q else q) ++ v ∷ []

-- `as_micros().min(u32::MAX as u128) as u32`.
abbrev pub micros : ℕ → ℕ
micros d = min (d / 1000) u32_max

unfoldable pub record_arrival : LatencyTracker → ℕ → LatencyTracker × Option ℕ
record_arrival t now = elim t.prev_arrival [
  | none ↦ (record t { prev_arrival = some now }, none)
  | some prev ↦ (
    record t {
      prev_arrival = some now;
      intervals_us = push_capped t.intervals_us (micros (now - prev));
    },
    some (now - prev),
  )
]

unfoldable pub record_send : LatencyTracker → ℕ → LatencyTracker
record_send t dur = record t { sends_us = push_capped t.sends_us (micros dur) }

-- `sort_unstable` on a vector of `u32`.
pub insert_sorted : ℕ → List ℕ → List ℕ
insert_sorted x [] = x ∷ []
insert_sorted x (y ∷ ys) = if leb x y then x ∷ y ∷ ys else y ∷ insert_sorted x ys

pub sort_unstable : List ℕ → List ℕ
unfolding insert_sorted
sort_unstable [] = []
sort_unstable (x ∷ xs) = insert_sorted x (sort_unstable xs)

-- `filter(..).count()`.
abbrev pub count_above : ℕ → List ℕ → ℕ
count_above limit [] = 0
count_above limit (v ∷ vs) = (if ltb limit v then 1 else 0) + count_above limit vs

module _ (fl : Floats) where
  open fl use {
    F32, F64, f32_of, f32_sub, f32_mul, f32_round, p50, p95, p99, f64_of, f64_add, f64_sub, f64_mul,
    f64_div, f64_sqrt, f64_to_f32,
  }

  unfoldable pub percentile : List ℕ → F32 → ℕ
  percentile [] p = 0
  percentile (v ∷ vs) p =
      let idx = f32_round (f32_mul (f32_sub (f32_of (length (v ∷ vs))) (f32_of 1)) p) in
      get_or (v ∷ vs) (min idx (length (v ∷ vs) - 1)) 0

  abbrev sum_f64 : F64 → List F64 → F64
  sum_f64 acc [] = acc
  sum_f64 acc (v ∷ vs) = sum_f64 (f64_add acc v) vs

  pub stddev_us : List ℕ → F32
  stddev_us values =
      let n = f64_of (length values) in
      let mean = f64_div (sum_f64 (f64_of 0) (map f64_of values)) n in
      let square = λ (v : ℕ). f64_mul (f64_sub (f64_of v) mean) (f64_sub (f64_of v) mean) in
      let var = f64_div (sum_f64 (f64_of 0) (map square values)) (f64_sub n (f64_of 1)) in
      if ltb (length values) 2 then f32_of 0 else f64_to_f32 (f64_sqrt var)

  pub record LatencySnapshot : Type 0 where
    pub interval_us_p50 : F32
    pub interval_us_p95 : F32
    pub interval_us_p99 : F32
    pub jitter_us : F32
    pub send_us_p50 : F32
    pub send_us_p95 : F32
    pub dropped_estimate : ℕ
    pub samples_window : ℕ

  -- `p50.saturating_mul(2)`.
  abbrev pub twice : ℕ → ℕ
  twice v = min (v * 2) u32_max

  -- A percentile of an empty list is 0, which is what the branches on an empty window write.
  unfoldable pub snapshot : LatencyTracker → LatencySnapshot
  snapshot t =
      let iv = sort_unstable t.intervals_us in
      let sv = sort_unstable t.sends_us in
      record {
        interval_us_p50 = f32_of (percentile iv p50);
        interval_us_p95 = f32_of (percentile iv p95);
        interval_us_p99 = f32_of (percentile iv p99);
        jitter_us = stddev_us iv;
        send_us_p50 = f32_of (percentile sv p50);
        send_us_p95 = f32_of (percentile sv p95);
        dropped_estimate = count_above (twice (percentile iv p50)) iv;
        samples_window = length iv;
      }

pub record LatencyHistory (A : Type 0) : Type 0 where
  pub samples : List A
  pub cap : ℕ

module _ {A : Type 0} where
  unfoldable pub new_history : ℕ → LatencyHistory A
  new_history cap = record { samples = []; cap = max cap 1 }

  unfoldable pub push : LatencyHistory A → A → LatencyHistory A
  push h snap = record h {
    samples = (if length h.samples == h.cap then pop_front h.samples else h.samples) ++ snap ∷ [];
  }

  unfoldable pub clear : LatencyHistory A → LatencyHistory A
  clear h = record h { samples = [] }

  unfoldable pub latest : LatencyHistory A → Option A
  latest h = back h.samples

  unfoldable pub history_len : LatencyHistory A → ℕ
  history_len h = length h.samples

  unfoldable pub history_is_empty : LatencyHistory A → Bool
  history_is_empty h = length h.samples == 0
