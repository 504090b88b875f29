-- ===== src/Core/Latency/Percentiles.antt =====
-- crates/core/src/latency.rs: what a snapshot of the tracker reports.
use everything_imu.Prelude.{
  ℕ, ◌-◌, ◌*◌, ◌≤◌, ◌<◌, min, List, [], ◌∷◌, length, get_or, ◌≡◌, refl, sym, ap, ◌∙◌, arith,
}
use everything_imu.Core.Latency.{
  Floats, LatencyTracker, LatencySnapshot, snapshot, percentile, sort_unstable, count_above,
  u32_max,
}
use everything_imu.Core.Latency.Sorted.{
  IsSorted, count, count-sort_unstable, count_above-sort_unstable, length-sort_unstable,
  sort_unstable-IsSorted, get_or_mono, count-get_or, count_above-le, count_below, count_up_to,
  count_below-sort_unstable, count_up_to-sort_unstable, get_or-below, get_or-up_to,
}
use everything_imu.Core.Latency.{new_tracker, window}
use everything_imu.Core.Latency.Newest.{newest}
use everything_imu.Core.Latency.Windows.{
  Event, tracked, arrivals, intervals, durations, tracked-newest,
}
use mathlib.Core.Path.{subst}

module _ (fl : Floats) where
  open fl use {F32, f32_of, f32_sub, f32_mul, f32_round, p50, p95, p99}

  -- The rounded product by which `percentile` picks its entry.
  abbrev pub rank : ℕ → F32 → ℕ
  rank n p = f32_round (f32_mul (f32_sub (f32_of n) (f32_of 1)) p)

  -- Multiplication by a larger constant and rounding keep the order.
  pub record IsMonotone : Type 0 where
    pub half_below : (n : ℕ) → rank n p50 ≤ rank n p95
    pub tail_below : (n : ℕ) → rank n p95 ≤ rank n p99

  abbrev pick : List ℕ → F32 → ℕ
  pick xs p = get_or xs (min (rank (length xs) p) (length xs - 1)) 0

  percentile-pick : (xs : List ℕ) (p : F32) → percentile fl xs p ≡ pick xs p
  unfolding percentile
  percentile-pick [] p = refl
  percentile-pick (x ∷ xs) p = refl

  pick_mono :
      (xs : List ℕ) (p q : F32)
      → IsSorted xs
      → 0 < length xs
      → rank (length xs) p ≤ rank (length xs) q
      → pick xs p ≤ pick xs q
  pick_mono xs p q s h r = get_or_mono xs 0 _ _ s (omega arith) (omega arith)

  -- The value measured for one percentile of a window.
  abbrev pub measured : List ℕ → F32 → ℕ
  measured us p = percentile fl (sort_unstable us) p

  -- The entry of a sorted window at the rank of a percentile, as the window itself counts it: at most
  -- that many entries are below it, more than that many are at most it, and it is one of them. Of an
  -- empty window it is zero.
  abbrev pub IsPercentile : List ℕ → F32 → ℕ → Type 0
  IsPercentile [] p a = a ≡ 0
  IsPercentile (u ∷ us) p a =
      let k = min (rank (length (u ∷ us)) p) (length (u ∷ us) - 1) in
      (count_below a (u ∷ us) ≤ k) × (k < count_up_to a (u ∷ us)) × (0 < count a (u ∷ us))

  IsPercentile-pick :
      (us xs : List ℕ) (k : ℕ)
      → IsSorted xs
      → k < length xs
      → ((a : ℕ)
          → (count_below a xs ≡ count_below a us)
            × (count_up_to a xs ≡ count_up_to a us)
            × (count a xs ≡ count a us))
      → (count_below (get_or xs k 0) us ≤ k)
        × (k < count_up_to (get_or xs k 0) us)
        × (0 < count (get_or xs k 0) us)
  IsPercentile-pick us xs k s h e =
      let (below, up_to, here) = e (get_or xs k 0) in
      (
        omega (arith, below, get_or-below xs k 0 s h),
        omega (arith, up_to, get_or-up_to xs k 0 s h),
        omega (arith, here, count-get_or xs k 0 h),
      )

  measured-IsPercentile : (us : List ℕ) (p : F32) → IsPercentile us p (measured us p)
  unfolding sort_unstable percentile
  measured-IsPercentile [] p = refl
  measured-IsPercentile (u ∷ us) p =
      let xs = sort_unstable (u ∷ us) in
      let n : length xs ≡ length (u ∷ us) = length-sort_unstable (u ∷ us) in
      subst (λ (a : ℕ). IsPercentile (u ∷ us) p a)
        (ap (λ l. get_or xs (min (rank l p) (l - 1)) 0) (sym n) ∙ sym (percentile-pick xs p))
        (IsPercentile-pick (u ∷ us) xs (min (rank (length (u ∷ us)) p) (length (u ∷ us) - 1))
          (sort_unstable-IsSorted (u ∷ us)) (omega (arith, n))
          (λ a. (
            count_below-sort_unstable a (u ∷ us),
            count_up_to-sort_unstable a (u ∷ us),
            count-sort_unstable a (u ∷ us),
          )))

  measured_mono :
      (us : List ℕ) (p q : F32)
      → rank (length us) p ≤ rank (length us) q
      → measured us p ≤ measured us q
  unfolding sort_unstable percentile
  measured_mono [] p q r = omega arith
  measured_mono (u ∷ us) p q r =
      let n : length (sort_unstable (u ∷ us)) ≡ length (u ∷ us) = length-sort_unstable (u ∷ us) in
      rw (percentile-pick, percentile-pick)
        (pick_mono (sort_unstable (u ∷ us)) p q (sort_unstable-IsSorted (u ∷ us)) (omega (arith, n))
          (rw n r))

  -- What a snapshot says of a window of intervals and a window of sends.
  pub record Reports (us sends : List ℕ) (s : LatencySnapshot fl) : Type 0 where
    pub median : ℕ
    pub high : ℕ
    pub highest : ℕ
    pub send_median : ℕ
    pub send_high : ℕ
    pub shows_median : s.interval_us_p50 ≡ f32_of median
    pub shows_high : s.interval_us_p95 ≡ f32_of high
    pub shows_highest : s.interval_us_p99 ≡ f32_of highest
    pub shows_send_median : s.send_us_p50 ≡ f32_of send_median
    pub shows_send_high : s.send_us_p95 ≡ f32_of send_high
    pub is_p50 : IsPercentile us p50 median
    pub is_p95 : IsPercentile us p95 high
    pub is_p99 : IsPercentile us p99 highest
    pub is_send_p50 : IsPercentile sends p50 send_median
    pub is_send_p95 : IsPercentile sends p95 send_high
    pub ordered : (median ≤ high) × (high ≤ highest) × (send_median ≤ send_high)
    pub counted : s.samples_window ≡ length us
    pub dropped : s.dropped_estimate ≡ count_above (min (median * 2) u32_max) us
    pub few_dropped : s.dropped_estimate ≤ s.samples_window

  snapshot-Reports :
      (t : LatencyTracker) → IsMonotone → Reports t.intervals_us t.sends_us (snapshot fl t)
  unfolding snapshot
  snapshot-Reports t mono =
      let us = t.intervals_us in
      let sends = t.sends_us in
      record {
        median = measured us p50;
        high = measured us p95;
        highest = measured us p99;
        send_median = measured sends p50;
        send_high = measured sends p95;
        shows_median = refl;
        shows_high = refl;
        shows_highest = refl;
        shows_send_median = refl;
        shows_send_high = refl;
        is_p50 = measured-IsPercentile us p50;
        is_p95 = measured-IsPercentile us p95;
        is_p99 = measured-IsPercentile us p99;
        is_send_p50 = measured-IsPercentile sends p50;
        is_send_p95 = measured-IsPercentile sends p95;
        ordered = (
          measured_mono us p50 p95 (mono.half_below (length us)),
          measured_mono us p95 p99 (mono.tail_below (length us)),
          measured_mono sends p50 p95 (mono.half_below (length sends)),
        );
        counted = length-sort_unstable us;
        dropped = count_above-sort_unstable (min (measured us p50 * 2) u32_max) us;
        few_dropped = count_above-le (min (measured us p50 * 2) u32_max) (sort_unstable us);
      }

  -- Take the newest 256 intervals between consecutive arrivals, and the newest 256 durations of sends,
  -- of any arrivals and sends, in whole microseconds with the limit of 32 bits. A snapshot shows, read
  -- as `f32`, the percentiles 50, 95 and 99 of these intervals and 50 and 95 of these durations, in
  -- ascending order. Each is the entry of its window for the rank that is the rounded product of the
  -- percentile and one less than the size of the window, at most the last: at most that many entries
  -- are below it, and more than that many are at most it; of an empty window it is zero. The number of
  -- samples is the number of these intervals, and the estimate of drops counts those above twice the
  -- median (limited to 32 bits). The hypothesis is that the ranks of the percentiles are in order.
  pub tracked-snapshot :
      (es : List Event)
      → IsMonotone
      → Reports
          (newest window (intervals (arrivals es)))
          (newest window (durations es))
          (snapshot fl (tracked new_tracker es))
  tracked-snapshot es mono =
      let (held, sent, _) = tracked-newest es in
      subst (λ us. Reports us (newest window (durations es)) (snapshot fl (tracked new_tracker es)))
        held
        (subst
          (λ sends.
            Reports (tracked new_tracker es).intervals_us sends
              (snapshot fl (tracked new_tracker es)))
          sent (snapshot-Reports (tracked new_tracker es) mono))
