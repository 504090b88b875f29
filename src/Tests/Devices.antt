-- ===== src/Tests/Devices.antt =====
-- The reset detector and the health classifier on short histories.
use everything_imu.Prelude.{ℕ, ◌≡◌, refl, List, [], ◌∷◌, none, some, true, false, arith}
use everything_imu.Traits.Reset.{
  full, ButtonState, home_or_capture, capture_only, new, with_thresholds, observe, after,
}
use everything_imu.Traits.Reset.Debounce.{AreApart, emits, resets_apart}
use everything_imu.Traits.Reset.Presses.{held, home_press}
use everything_imu.Traits.Health.{DeviceHealth, healthy}
use everything_imu.Traits.Health as Health
use everything_imu.Traits.Health.History.{sample, lost, recorded}
use everything_imu.Traits.Health.Window.{recorded-classify_lem}

-- Down at 100, seen down at 600, let go at 1200: longer than a second.
home_press_example :
    (observe
      (after new (held (home_or_capture true false) (100 ∷ 600 ∷ [])))
      (home_or_capture false false)
      1200).1
    ≡ some full
unfolding new with_thresholds
home_press_example = home_press new 100 1200 (600 ∷ []) refl

-- A second tap 200 ms after the first.
abbrev taps : List (ButtonState × ℕ)
taps = (capture_only true, 1000) ∷ (capture_only false, 1100) ∷ (capture_only true, 1200) ∷ []

resets_apart_example : AreApart 300 none (emits (with_thresholds 1000 300) taps)
resets_apart_example = resets_apart 1000 300 taps (omega arith)

recorded-classify_lem_example :
    (Health.classify
      (recorded (Health.new 2) (sample 1000 ∷ lost ∷ sample 2500 ∷ sample 2600 ∷ []))
      3000).1
    ≡ healthy
recorded-classify_lem_example =
    recorded-classify_lem 2 3000 (sample 1000 ∷ lost ∷ sample 2500 ∷ sample 2600 ∷ [])
      (ground arith)
