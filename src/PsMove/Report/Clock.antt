-- ===== src/PsMove/Report/Clock.antt =====
-- crates/device-psmove/src/report.rs: the times that ReportClock gives.
use everything_imu.Prelude.{ℕ, ◌+◌, ◌/◌, ◌%◌, ◌^◌, ◌≤◌, ◌<◌, List, [], ◌∷◌, ◌≡◌, arith}
use native.Mathlib.Nat.{mod-eq_of_lt}
use everything_imu.PsMove.Report.{FloatOps, ReportClock, smoothed_dt, tick, f_1_0}

-- The two frames of each report come one after the other, and no report goes back behind the last one.
abbrev pub Advances : ℕ → List (ℕ × ℕ) → Type 0
Advances last [] = Unit {0}
Advances last ((a, b) ∷ stamps) = (last ≤ a) × (a < b) × Advances b stamps

module _ (ops : FloatOps) where
  -- The times of the reports that arrive at `nows`.
  unfoldable pub stamps_of : ReportClock → List ℕ → List (ℕ × ℕ)
  stamps_of c [] = []
  stamps_of c (now ∷ nows) = let t = tick ops c now in t.1 ∷ stamps_of t.0 nows

  -- The count of microseconds does not come to 2^64.
  unfoldable pub HasRoom : ReportClock → List ℕ → Type 0
  HasRoom c [] = Unit {0}
  HasRoom c (now ∷ nows) =
      (c.accum_us + smoothed_dt ops c now < 2 ^ 64) × HasRoom (tick ops c now).0 nows

  -- The largest of a number and 1.0 is at least 1 as an integer.
  abbrev pub MaxIsPositive : Type 0
  MaxIsPositive = (x : ℕ) → 0 < ops.to_u64 (ops.max_of x f_1_0)

  -- Whenever the reports arrive, the times of their frames never go back, and the second frame of a
  -- report is later than its first, until the count of microseconds would come to 2^64. The largest
  -- of a number and 1.0 is taken to be at least 1 as an integer.
  pub stamps_of-Advances :
      MaxIsPositive
      → (c : ReportClock) (nows : List ℕ) → HasRoom c nows
      → Advances c.accum_us (stamps_of c nows)
  unfolding stamps_of HasRoom tick smoothed_dt
  stamps_of-Advances pos c [] room = tt
  stamps_of-Advances pos c (now ∷ nows) (fits, room) =
      let dt = smoothed_dt ops c now in
      let p : 0 < dt = pos _ in
      let a : (c.accum_us + dt / 2) % 2 ^ 64 ≡ c.accum_us + dt / 2 =
        mod-eq_of_lt (omega (arith, fits)) in
      let b : (c.accum_us + dt) % 2 ^ 64 ≡ c.accum_us + dt = mod-eq_of_lt fits in
      (
        omega (arith, a),
        omega (arith, a, b, p),
        stamps_of-Advances pos (tick ops c now).0 nows room,
      )
