-- ===== src/Joycon/Report/RoundTrip.antt =====
-- Reports as a controller writes them, by the layouts that the comments of
-- crates/device-joycon/src/report.rs give.
use everything_imu.Prelude.{
  ℕ, ◌+◌, ◌≤◌, ◌<◌, ◌^◌, ◌≡◌, refl, sym, ap, ◌∙◌, List, [], ◌∷◌, ◌++◌, Option, none, some, Bool,
  true, false, not, ok, ltb, le→ltb_false, ◌==◌, if_false, if◌then◌else◌, length, to_le,
  from_le-to_le, length-append, append_assoc, arith,
}
use everything_imu.Slices.{
  at, slice, u16le, f32le, >>=_step, slice-middle, at-skip, f32le-skip, f32le-front,
}
use everything_imu.Joycon.Report.{
  Axes, ImuRawSample, ButtonsRaw, decode_battery, read_axes, parse_imu_sample, sample_at, read_0x30,
  parse_0x30, read_spi_reply, parse_0x21_spi_reply,
}
use everything_imu.Joycon.Subcmd.{build_report_0x01, spi_read}

abbrev raw_axes : Axes → List ℕ → List ℕ
raw_axes (x, y, z) tail = to_le 2 x ++ (to_le 2 y ++ (to_le 2 z ++ tail))

-- The twelve bytes of a sample.
abbrev pub raw_sample : ImuRawSample → List ℕ
raw_sample s = raw_axes s.accel (raw_axes s.gyro [])

abbrev pub IsAxes : Axes → Type 0
IsAxes (x, y, z) = (x < 2 ^ 16) × (y < 2 ^ 16) × (z < 2 ^ 16)

abbrev pub IsRaw : ImuRawSample → Type 0
IsRaw s = IsAxes s.accel × IsAxes s.gyro

-- Report 0x30: the seven bytes of the sticks and the vibrator stand in front of the samples.
abbrev pub full_report :
    ℕ → ℕ → ButtonsRaw → List ℕ → ImuRawSample → ImuRawSample → ImuRawSample → List ℕ → List ℕ
full_report timer battery b sticks s0 s1 s2 tail =
    48
    ∷ timer
    ∷ battery
    ∷ b.low
    ∷ b.high
    ∷ b.shared
    ∷ (sticks ++ (raw_sample s0 ++ (raw_sample s1 ++ (raw_sample s2 ++ tail))))

-- Report 0x21 with a reply to a read of the SPI flash: `ack` in byte 13, and the data behind the address.
abbrev pub spi_reply : List ℕ → ℕ → ℕ → List ℕ → List ℕ → List ℕ
spi_reply front ack addr payload tail =
    33 ∷ (front ++ (ack ∷ 16 ∷ (to_le 4 addr ++ (length payload ∷ (payload ++ tail)))))

passed :
    {A : Type 0} (n m : ℕ) (x y : Option A) {r : Option A}
    → m ≤ n
    → y ≡ r
    → (if ltb n m then x else y) ≡ r
passed n m x y h e = if_false (ltb n m) x y (le→ltb_false n m h) ∙ e

some_axes : {x x' y y' z z' : ℕ} → x ≡ x' → y ≡ y' → z ≡ z' → Path Axes (x, y, z) (x', y', z')
some_axes a b c = rw (a, b, c)

some_sample :
    {a a' g g' : Axes}
    → a ≡ a'
    → g ≡ g'
    → Path
        (Option ImuRawSample)
        (some (record { accel = a; gyro = g }))
        (some (record { accel = a'; gyro = g' }))
some_sample a g = rw (a, g)

parse_imu_sample-raw_sample :
    (s : ImuRawSample) → IsRaw s → parse_imu_sample (raw_sample s) ≡ some s
unfolding parse_imu_sample read_axes u16le to_le
parse_imu_sample-raw_sample s ((ax, ay, az), (gx, gy, gz)) =
    some_sample
      (some_axes (from_le-to_le 2 s.accel.0 ax) (from_le-to_le 2 s.accel.1 ay)
        (from_le-to_le 2 s.accel.2 az))
      (some_axes (from_le-to_le 2 s.gyro.0 gx) (from_le-to_le 2 s.gyro.1 gy)
        (from_le-to_le 2 s.gyro.2 gz))

length-raw_sample : (s : ImuRawSample) → length (raw_sample s) ≡ 12
unfolding to_le
length-raw_sample s = refl

-- A sample behind a prefix.
sample_at-raw_sample :
    (pre : List ℕ) (s : ImuRawSample) (tail : List ℕ) (a b : ℕ)
    → IsRaw s
    → a ≡ length pre
    → b ≡ a + 12
    → sample_at (pre ++ (raw_sample s ++ tail)) a b ≡ some s
unfolding sample_at
sample_at-raw_sample pre s tail a b h ha hb =
    >>=_step (slice (pre ++ (raw_sample s ++ tail)) a b) _
      (slice-middle pre (raw_sample s) tail a b ha (omega (arith, length-raw_sample s, ha, hb)))
      (parse_imu_sample-raw_sample s h)

-- A full report of a controller, with anything behind it, is read as its timer, battery, buttons and the
-- three samples in order. The sticks and the vibrator take seven bytes, and the samples' numbers are `i16`s.
pub parse_0x30-full_report :
    (timer battery : ℕ) (b : ButtonsRaw) (sticks : List ℕ) (s0 s1 s2 : ImuRawSample) (tail : List ℕ)
    → length sticks ≡ 7
    → IsRaw s0
    → IsRaw s1
    → IsRaw s2
    → parse_0x30 (full_report timer battery b sticks s0 s1 s2 tail)
      ≡ some (
          ok (record {
            timer = timer;
            battery = decode_battery battery;
            buttons = b;
            imu_samples = (s0, s1, s2);
          }))
unfolding parse_0x30 read_0x30
parse_0x30-full_report timer battery b sticks s0 s1 s2 tail hs h0 h1 h2 =
    let p = full_report timer battery b sticks s0 s1 s2 tail in
    let pre = 48 ∷ timer ∷ battery ∷ b.low ∷ b.high ∷ b.shared ∷ sticks in
    let rest1 = raw_sample s1 ++ (raw_sample s2 ++ tail) in
    let e1 : p ≡ (pre ++ raw_sample s0) ++ rest1 = sym (append_assoc pre (raw_sample s0) rest1) in
    let e2 : p ≡ ((pre ++ raw_sample s0) ++ raw_sample s1) ++ (raw_sample s2 ++ tail) =
      e1 ∙ sym (append_assoc (pre ++ raw_sample s0) (raw_sample s1) (raw_sample s2 ++ tail)) in
    let n1 : length (pre ++ raw_sample s0) ≡ 25 =
      omega (arith, length-append pre (raw_sample s0), length-raw_sample s0, hs) in
    let n2 : length ((pre ++ raw_sample s0) ++ raw_sample s1) ≡ 37 =
      omega
        (arith, length-append (pre ++ raw_sample s0) (raw_sample s1), length-raw_sample s1, n1) in
    let size : length p ≡ 49 + length tail =
      ap length e2
      ∙ omega (
        arith,
        length-append ((pre ++ raw_sample s0) ++ raw_sample s1) (raw_sample s2 ++ tail),
        length-append (raw_sample s2) tail,
        length-raw_sample s2,
        n2,
      ) in
    passed (length p) 49 _ _ (omega (arith, size)) (
      >>=_step (read_0x30 p) _
        (>>=_step (sample_at p 13 25) _
          (sample_at-raw_sample pre s0 rest1 13 25 h0 (omega (arith, hs)) (omega arith))
          (>>=_step (sample_at p 25 37) _
            (ap (λ l. sample_at l 25 37) e1
              ∙ sample_at-raw_sample (pre ++ raw_sample s0) s1 (raw_sample s2 ++ tail) 25 37 h1
                  (omega (arith, n1)) (omega arith))
            (>>=_step (sample_at p 37 49) _
              (ap (λ l. sample_at l 37 49) e2
                ∙ sample_at-raw_sample ((pre ++ raw_sample s0) ++ raw_sample s1) s2 tail 37 49 h2
                    (omega (arith, n2)) (omega arith))
              refl)))
        refl)

read_spi_reply_lem :
    (front : List ℕ) (ack addr : ℕ) (payload tail : List ℕ)
    → length front ≡ 12
    → addr < 2 ^ 32
    → read_spi_reply (spi_reply front ack addr payload tail)
      ≡ some (some (record { addr = addr; payload = payload }))
unfolding read_spi_reply to_le
read_spi_reply_lem front ack addr payload tail hf ha =
    let p = spi_reply front ack addr payload tail in
    let pre = 33 ∷ front in
    let head = ack ∷ 16 ∷ (to_le 4 addr ++ (length payload ∷ [])) in
    let behind = ack ∷ 16 ∷ (to_le 4 addr ++ (length payload ∷ (payload ++ tail))) in
    let e : p ≡ (pre ++ head) ++ (payload ++ tail) =
      sym (append_assoc pre head (payload ++ tail)) in
    let n : length (pre ++ head) ≡ 20 = omega (arith, length-append pre head, hf) in
    let size : length p ≡ 20 + length payload + length tail =
      ap length e
      ∙ omega
          (arith, length-append (pre ++ head) (payload ++ tail), length-append payload tail, n) in
    >>=_step (f32le p 15) _
      (f32le-skip pre behind 15 2 (omega (arith, hf))
        ∙ f32le-skip (ack ∷ 16 ∷ []) _ 2 0 refl
        ∙ f32le-front addr _ ha)
      (>>=_step (at p 19) _ (at-skip pre behind 19 6 (omega (arith, hf))) (
        passed (length p) (20 + length payload) _ _ (omega (arith, size)) (
          >>=_step (slice p 20 (20 + length payload)) _
            (ap (λ l. slice l 20 (20 + length payload)) e
              ∙ slice-middle (pre ++ head) payload tail 20 (20 + length payload) (omega (arith, n))
                  (omega (arith, n)))
            refl)))

acknowledged :
    {A : Type 0} (b : Bool) {x : Option (Option A)} {r : Option A}
    → x ≡ some r
    → (if not b then some none else x) ≡ some (if b then r else none)
acknowledged true h = h
acknowledged false h = refl

-- A reply to a read of the SPI flash, with anything behind it, gives its address and its data if the
-- acknowledgement is 0x90; with any other acknowledgement it gives nothing. Twelve bytes stand between the
-- report id and the acknowledgement, and the address is a `u32`.
pub parse_0x21_spi_reply-spi_reply :
    (front : List ℕ) (ack addr : ℕ) (payload tail : List ℕ)
    → length front ≡ 12
    → addr < 2 ^ 32
    → parse_0x21_spi_reply (spi_reply front ack addr payload tail)
      ≡ some (if ack == 144 then some (record { addr = addr; payload = payload }) else none)
unfolding parse_0x21_spi_reply to_le
parse_0x21_spi_reply-spi_reply front ack addr payload tail hf ha =
    let p = spi_reply front ack addr payload tail in
    let pre = 33 ∷ front in
    let behind = ack ∷ 16 ∷ (to_le 4 addr ++ (length payload ∷ (payload ++ tail))) in
    let size : length p ≡ 13 + length behind = omega (arith, length-append pre behind, hf) in
    passed (length p) 20 _ _ (omega (arith, size)) (
      >>=_step (at p 13) _ (at-skip pre behind 13 0 (omega (arith, hf))) (
        acknowledged (ack == 144) (
          >>=_step (at p 14) _ (at-skip pre behind 14 1 (omega (arith, hf)))
            (read_spi_reply_lem front ack addr payload tail hf ha))))

-- The request for a read carries the address and the length where a reply repeats them.
pub spi_read_lem :
    (packet_counter addr len : ℕ)
    → addr < 2 ^ 32
    → (f32le (spi_read packet_counter addr len) 11 ≡ some addr)
      × (at (spi_read packet_counter addr len) 15 ≡ some len)
      × (length (spi_read packet_counter addr len) ≡ 16)
unfolding spi_read build_report_0x01 to_le f32le
spi_read_lem packet_counter addr len h = (ap some (from_le-to_le 4 addr h), refl, refl)
