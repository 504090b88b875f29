-- ===== src/Joycon/Report/Total.antt =====
-- The report parsers on every report.
use everything_imu.Prelude.{ℕ, ◌+◌, ◌≤◌, ◌≡◌, refl, List, not, ◌==◌, length, arith}
use everything_imu.Slices.{
  guarded, chosen, at, slice, u16le, f32le, Returns, >>=-Returns, at-Returns, slice-Returns,
  u16le-Returns, f32le-Returns, slice-length,
}
use everything_imu.Joycon.Report.{
  read_axes, parse_imu_sample, sample_at, read_0x30, parse_0x30, read_spi_reply,
  parse_0x21_spi_reply,
}

read_axes-Returns : (p : List ℕ) (o : ℕ) → o + 6 ≤ length p → Returns (read_axes p o)
unfolding read_axes
read_axes-Returns p o h = >>=-Returns (u16le p o) _ (u16le-Returns p o (omega arith)) (λ x ex.
    >>=-Returns (u16le p (o + 2)) _ (u16le-Returns p (o + 2) (omega arith)) (λ y ey.
      >>=-Returns (u16le p (o + 4)) _ (u16le-Returns p (o + 4) (omega arith)) (λ z ez. (_, refl))))

sample_at-Returns :
    (buf : List ℕ) (a : ℕ) → a + 12 ≤ length buf → Returns (sample_at buf a (a + 12))
unfolding sample_at parse_imu_sample
sample_at-Returns buf a h =
    >>=-Returns (slice buf a (a + 12)) _ (slice-Returns buf a (a + 12) (omega arith) h) (λ p ep.
      let size : length p ≡ 12 = slice-length buf a 12 h ep in
      >>=-Returns (read_axes p 0) _ (read_axes-Returns p 0 (omega (arith, size))) (λ accel ea.
        >>=-Returns (read_axes p 6) _ (read_axes-Returns p 6 (omega (arith, size)))
          (λ gyro eg. (_, refl))))

read_0x30-Returns : (buf : List ℕ) → 49 ≤ length buf → Returns (read_0x30 buf)
unfolding read_0x30
read_0x30-Returns buf h = >>=-Returns (at buf 1) _ (at-Returns buf 1 (omega arith)) (λ timer e1.
    >>=-Returns (at buf 2) _ (at-Returns buf 2 (omega arith)) (λ battery e2.
      >>=-Returns (at buf 3) _ (at-Returns buf 3 (omega arith)) (λ low e3.
        >>=-Returns (at buf 4) _ (at-Returns buf 4 (omega arith)) (λ high e4.
          >>=-Returns (at buf 5) _ (at-Returns buf 5 (omega arith)) (λ shared e5.
            >>=-Returns (sample_at buf 13 25) _ (sample_at-Returns buf 13 (omega arith)) (λ s0 e6.
              >>=-Returns (sample_at buf 25 37) _ (sample_at-Returns buf 25 (omega arith)) (λ s1 e7.
                >>=-Returns (sample_at buf 37 49) _ (sample_at-Returns buf 37 (omega arith))
                  (λ s2 e8. (_, refl)))))))))

read_spi_reply-Returns : (buf : List ℕ) → 20 ≤ length buf → Returns (read_spi_reply buf)
unfolding read_spi_reply
read_spi_reply-Returns buf h =
    >>=-Returns (f32le buf 15) _ (f32le-Returns buf 15 (omega arith)) (λ addr ea.
      >>=-Returns (at buf 19) _ (at-Returns buf 19 (omega arith)) (λ len el.
        guarded (length buf) (20 + len) _ _ (_, refl)
          (λ k.
            >>=-Returns (slice buf 20 (20 + len)) _
              (slice-Returns buf 20 (20 + len) (omega arith) k) (λ p ep. (_, refl)))))

-- Both parsers return on every report: no read is out of range.
pub parsers-Returns : (buf : List ℕ) → Returns (parse_0x30 buf) × Returns (parse_0x21_spi_reply buf)
unfolding parse_0x30 parse_0x21_spi_reply
parsers-Returns buf = (
  guarded (length buf) 49 _ _ (_, refl)
      (λ h. >>=-Returns (at buf 0) _ (at-Returns buf 0 (omega arith)) (λ id ei.
        chosen (not (id == 48)) _ _ (_, refl)
          (>>=-Returns (read_0x30 buf) _ (read_0x30-Returns buf h) (λ report er. (_, refl))))),
  guarded (length buf) 20 _ _ (_, refl)
      (λ h. >>=-Returns (at buf 0) _ (at-Returns buf 0 (omega arith)) (λ id ei.
        chosen (not (id == 33)) _ _ (_, refl)
          (>>=-Returns (at buf 13) _ (at-Returns buf 13 (omega arith)) (λ ack ea.
            chosen (not (ack == 144)) _ _ (_, refl)
              (>>=-Returns (at buf 14) _ (at-Returns buf 14 (omega arith)) (λ subcmd es.
                chosen (not (subcmd == 16)) _ _ (_, refl) (read_spi_reply-Returns buf h))))))),
)
