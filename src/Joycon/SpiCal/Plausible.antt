-- ===== src/Joycon/SpiCal/Plausible.antt =====
-- crates/device-joycon/src/spi_cal.rs: what is read from the flash is plausible, or replaced.
use everything_imu.Prelude.{
  ℕ, ◌+◌, ◌<◌, ◌≤◌, List, Option, none, some, Bool, true, false, ◌&&◌, ok, err, ltb, if_cases,
  length, ◌≡◌, refl, inl, inr, arith, Bool-cases, if_true, if_false, ◌∙◌, ap,
}
use mathlib.Core.Logic.{◌⊎◌}
use everything_imu.Slices.{u16le, slice, ◌>>=◌, Returns, >>=-Returns, u16le-Returns, slice-Returns}
use everything_imu.Joycon.Report.{Axes}
use everything_imu.Joycon.SpiCal.{
  FloatOps, ImuCalibration, wrong_length, plausible_offset, read_i16_3, axis_coeff, axis_coeffs,
  calibration_of_block, read_block, parse_factory_block, accel_offset_plausible_abs,
  gyro_offset_plausible_abs, nominal_accel_coeff_g, nominal_gyro_coeff_dps, f_0_5, f_2_0,
}

module _ (ops : FloatOps) where
  -- The nominal coefficient, or one between its half and its double.
  abbrev pub IsInBand : ℕ → ℕ → Type 0
  IsInBand nominal c =
      (c ≡ nominal)
      ⊎ ((ops.lt (ops.mul nominal f_0_5) c ≡ true) × (ops.lt c (ops.mul nominal f_2_0) ≡ true))

  abbrev pub AreInBand : ℕ → Axes → Type 0
  AreInBand nominal (x, y, z) = IsInBand nominal x × IsInBand nominal y × IsInBand nominal z

  pub record IsPlausible (c : ImuCalibration) : Type 0 where
    pub accel_near : plausible_offset c.accel_offset accel_offset_plausible_abs ≡ true
    pub gyro_near : plausible_offset c.gyro_offset gyro_offset_plausible_abs ≡ true
    pub accel_in_band : AreInBand nominal_accel_coeff_g c.accel_coeff_g
    pub gyro_in_band : AreInBand nominal_gyro_coeff_dps c.gyro_coeff_dps

  both : (a b : Bool) → (a && b) ≡ true → (a ≡ true) × (b ≡ true)
  both true b h = (refl, h)
  both false b h = absurd (ground (arith, h))

  axis_coeff-IsInBand :
      (numerator nominal sens offset : ℕ)
      → IsInBand nominal (axis_coeff ops numerator nominal sens offset)
  unfolding axis_coeff
  axis_coeff-IsInBand numerator nominal sens offset =
      if_cases (IsInBand nominal) (ops.le _ _) (λ t. inl refl)
        (λ f.
          if_cases (IsInBand nominal) (ops.is_finite _ && (ops.lt _ _ && ops.lt _ _))
            (λ t. inr (both _ _ (both _ _ t).1)) (λ f. inl refl))

  axis_coeffs-AreInBand :
      (sens : Option Axes) (offset : Axes) (numerator nominal : ℕ)
      → AreInBand nominal (axis_coeffs ops sens offset numerator nominal)
  axis_coeffs-AreInBand none offset numerator nominal = (inl refl, inl refl, inl refl)
  axis_coeffs-AreInBand (some (sx, sy, sz)) (ox, oy, oz) numerator nominal = (
    axis_coeff-IsInBand numerator nominal sx ox,
    axis_coeff-IsInBand numerator nominal sy oy,
    axis_coeff-IsInBand numerator nominal sz oz,
  )

  calibration_of_block-IsPlausible :
      (accel : Axes) (accel_sens : Option Axes) (gyro : Axes) (gyro_sens : Option Axes)
      → IsPlausible (calibration_of_block ops accel accel_sens gyro gyro_sens)
  unfolding calibration_of_block plausible_offset
  calibration_of_block-IsPlausible accel accel_sens gyro gyro_sens =
      if_cases IsPlausible
        (plausible_offset accel accel_offset_plausible_abs
          && plausible_offset gyro gyro_offset_plausible_abs)
        (λ t. record {
          accel_near = (both (plausible_offset accel accel_offset_plausible_abs) _ t).0;
          gyro_near = (both (plausible_offset accel accel_offset_plausible_abs) _ t).1;
          accel_in_band = axis_coeffs-AreInBand accel_sens accel _ _;
          gyro_in_band = axis_coeffs-AreInBand gyro_sens gyro _ _;
        })
        (λ f. record {
          accel_near = refl;
          gyro_near = refl;
          accel_in_band = (inl refl, inl refl, inl refl);
          gyro_in_band = (inl refl, inl refl, inl refl);
        })

read_i16_3-Returns :
    (block : List ℕ) (off : ℕ) → off + 6 ≤ length block → Returns (read_i16_3 block off)
unfolding read_i16_3
read_i16_3-Returns block off h =
    >>=-Returns (u16le block off) _ (u16le-Returns block off (omega arith)) (λ x ex.
      >>=-Returns (u16le block (off + 2)) _ (u16le-Returns block (off + 2) (omega arith)) (λ y ey.
        >>=-Returns (u16le block (off + 4)) _ (u16le-Returns block (off + 4) (omega arith))
          (λ z ez. (_, refl))))

-- A read of a calibration, and that it is plausible.
abbrev ReadsPlausible : FloatOps → Option ImuCalibration → Type 0
ReadsPlausible ops m = (c : ImuCalibration) × (m ≡ some c) × IsPlausible ops c

>>=-ReadsPlausible :
    (ops : FloatOps) {A : Type 0} (m : Option A) (f : A → Option ImuCalibration)
    → Returns m
    → ((a : A) → ReadsPlausible ops (f a))
    → ReadsPlausible ops (m >>= f)
>>=-ReadsPlausible ops none f (a, h) k = absurd (ground (arith, h))
>>=-ReadsPlausible ops (some a) f h k = k a

read_block-ReadsPlausible :
    (ops : FloatOps) (block : List ℕ)
    → 24 ≤ length block
    → ReadsPlausible ops (read_block ops block)
unfolding read_block
read_block-ReadsPlausible ops block size =
    >>=-ReadsPlausible ops (read_i16_3 block 0) _ (read_i16_3-Returns block 0 (omega arith))
      (λ accel.
        >>=-ReadsPlausible ops (read_i16_3 block 6) _ (read_i16_3-Returns block 6 (omega arith))
          (λ accel_sens.
            >>=-ReadsPlausible ops (read_i16_3 block 12) _
              (read_i16_3-Returns block 12 (omega arith))
              (λ gyro.
                >>=-ReadsPlausible ops (read_i16_3 block 18) _
                  (read_i16_3-Returns block 18 (omega arith))
                  (λ gyro_sens.
                    >>=-ReadsPlausible ops (slice block 6 12) _
                      (slice-Returns block 6 12 (omega arith) (omega arith))
                      (λ b.
                        >>=-ReadsPlausible ops (slice block 18 24) _
                          (slice-Returns block 18 24 (omega arith) (omega arith))
                          (λ c. (_, refl, calibration_of_block-IsPlausible ops accel _ gyro _)))))))

-- No block makes the parser panic. A block shorter than 24 bytes is an error with its length; of any
-- other block the offsets that it gives are at most 2000 and 1000 away from zero, and each
-- coefficient is the nominal one or lies between the half and the double of it.
pub parse_factory_block-IsPlausible :
    (ops : FloatOps) (block : List ℕ)
    → (parse_factory_block ops block ≡ some (err (wrong_length (length block)))
        × (length block < 24))
      ⊎ ((c : ImuCalibration) × (parse_factory_block ops block ≡ some (ok c)) × IsPlausible ops c)
unfolding parse_factory_block
parse_factory_block-IsPlausible ops block = elim (Bool-cases (ltb (length block) 24)) [
  | inl t ↦ inl (if_true (ltb (length block) 24) _ _ t, ground (arith, t))
  | inr f ↦
      let (c, e, p) = read_block-ReadsPlausible ops block (ground (arith, f)) in
      inr (c, if_false (ltb (length block) 24) _ _ f ∙ ap (λ m. m >>= (λ c. some (ok c))) e, p)
]
