-- ===== src/Remote/Protocol/Samples.antt =====
-- The samples of a remote message: how a hub writes them, and that they are read back.
use everything_imu.Prelude.{
  ℕ, ◌+◌, ◌*◌, ◌<◌, ◌^◌, ◌≡◌, refl, sym, ap, ◌∙◌, List, [], ◌∷◌, ◌++◌, Option, none, some, Bool,
  true, false, length, to_le, from_le, from_le-to_le, length-to_le, length-append, append_assoc,
  arith,
}
use mathlib.Core.Path.{ap₂}
use everything_imu.Slices.{
  ◌>>=◌, f32le, u64le, >>=_step, u64le-front, at-skip, f32le-skip, u64le-skip,
}
use everything_imu.Remote.Protocol.{
  Vector, ImuSample, nonzero, read_vector, read_mag, read_sample, read_samples,
}

-- A writer takes the bytes that follow.
abbrev pub wire_vector : Vector → List ℕ → List ℕ
wire_vector (x, y, z) tail = to_le 4 x ++ (to_le 4 y ++ (to_le 4 z ++ tail))

-- The flag and the three numbers, which are zeros without a magnetometer.
abbrev pub wire_mag : Option Vector → List ℕ → List ℕ
wire_mag none tail = 0 ∷ wire_vector (0, 0, 0) tail
wire_mag (some v) tail = 1 ∷ wire_vector v tail

unfoldable pub wire_sample : ImuSample → List ℕ → List ℕ
wire_sample s tail =
    to_le 8 s.timestamp_us ++ wire_vector s.gyro (wire_vector s.accel (wire_mag s.mag tail))

abbrev pub wire_samples : List ImuSample → List ℕ → List ℕ
wire_samples [] tail = tail
wire_samples (s ∷ ss) tail = wire_sample s (wire_samples ss tail)

abbrev pub IsVector : Vector → Type 0
IsVector (x, y, z) = (x < 2 ^ 32) × (y < 2 ^ 32) × (z < 2 ^ 32)

abbrev pub IsMag : Option Vector → Type 0
IsMag none = Unit {0}
IsMag (some v) = IsVector v

-- Every field lies in the range of its Rust type.
abbrev pub IsSample : ImuSample → Type 0
IsSample s = (s.timestamp_us < 2 ^ 64) × IsVector s.gyro × IsVector s.accel × IsMag s.mag

abbrev pub AreSamples : List ImuSample → Type 0
AreSamples [] = Unit {0}
AreSamples (s ∷ ss) = IsSample s × AreSamples ss

-- The three numbers that `read_vector` makes of the bytes.
vector-front :
    (x y z : ℕ)
    → IsVector (x, y, z)
    → Path Vector (from_le (to_le 4 x), from_le (to_le 4 y), from_le (to_le 4 z)) (x, y, z)
vector-front x y z (hx, hy, hz) =
    rw (from_le-to_le 4 x hx, from_le-to_le 4 y hy, from_le-to_le 4 z hz)

some_sample :
    (ts : ℕ) {g g' a a' : Vector} {m m' : Option Vector}
    → g ≡ g'
    → a ≡ a'
    → m ≡ m'
    → Path
        (Option ImuSample)
        (some (record { timestamp_us = ts; gyro = g; accel = a; mag = m }))
        (some (record { timestamp_us = ts; gyro = g'; accel = a'; mag = m' }))
some_sample ts eg ea em = rw (eg, ea, em)

-- A sample at the front of a slice.
front :
    (ts : ℕ) (g a : Vector) (m : Option Vector) (tail : List ℕ)
    → ts < 2 ^ 64
    → IsVector g
    → IsVector a
    → IsMag m
    → read_sample (wire_sample (record { timestamp_us = ts; gyro = g; accel = a; mag = m }) tail) 0
      ≡ some (record { timestamp_us = ts; gyro = g; accel = a; mag = m })
unfolding read_sample wire_sample read_mag read_vector f32le to_le
front ts (gx, gy, gz) (ax, ay, az) none tail hts hg ha hm =
    >>=_step (u64le (to_le 8 ts ++ _) 0) _ (u64le-front ts _ hts)
      (some_sample ts (vector-front gx gy gz hg) (vector-front ax ay az ha) refl)
front ts (gx, gy, gz) (ax, ay, az) (some (mx, my, mz)) tail hts hg ha hm =
    >>=_step (u64le (to_le 8 ts ++ _) 0) _ (u64le-front ts _ hts) (
      some_sample ts (vector-front gx gy gz hg) (vector-front ax ay az ha)
        (ap some (vector-front mx my mz hm)))

-- Reads behind a prefix.
read_vector-skip :
    (pre ys : List ℕ) (o k : ℕ) → o ≡ length pre + k → read_vector (pre ++ ys) o ≡ read_vector ys k
unfolding read_vector
read_vector-skip pre ys o k h = rw (
  f32le-skip pre ys o k h,
  f32le-skip pre ys (o + 4) (k + 4) (omega (arith, h)),
  f32le-skip pre ys (o + 8) (k + 8) (omega (arith, h)),
)

read_mag-skip :
    (pre ys : List ℕ) (o k : ℕ) (b : Bool)
    → o ≡ length pre + k
    → read_mag (pre ++ ys) o b ≡ read_mag ys k b
unfolding read_mag
read_mag-skip pre ys o k true h = rw (read_vector-skip pre ys o k h)
read_mag-skip pre ys o k false h = refl

>>=-pointwise {ℓ κ} :
    {A : Type ℓ} {B : Type κ} (o : Option A) (f f' : A → Option B)
    → ((a : A) → f a ≡ f' a)
    → (o >>= f) ≡ (o >>= f')
>>=-pointwise none f f' h = refl
>>=-pointwise (some a) f f' h = h a

>>=-cong {ℓ κ} :
    {A : Type ℓ} {B : Type κ} {m m' : Option A} (f f' : A → Option B)
    → m ≡ m'
    → ((a : A) → f a ≡ f' a)
    → (m >>= f) ≡ (m' >>= f')
>>=-cong {m' = m'} f f' e h = ap (λ o. o >>= f) e ∙ >>=-pointwise m' f f' h

read_sample-skip :
    (pre ys : List ℕ) (o k : ℕ) → o ≡ length pre + k → read_sample (pre ++ ys) o ≡ read_sample ys k
unfolding read_sample
read_sample-skip pre ys o k h = >>=-cong _ _ (u64le-skip pre ys o k h) (λ ts.
    >>=-cong _ _ (at-skip pre ys (o + 32) (k + 32) (omega (arith, h))) (λ m.
      >>=-cong _ _ (read_vector-skip pre ys (o + 8) (k + 8) (omega (arith, h))) (λ g.
        >>=-cong _ _ (read_vector-skip pre ys (o + 20) (k + 20) (omega (arith, h))) (λ a.
          >>=-cong _ _ (read_mag-skip pre ys (o + 33) (k + 33) (nonzero m) (omega (arith, h)))
            (λ v. refl)))))

length-wire_vector : (v : Vector) (tail : List ℕ) → length (wire_vector v tail) ≡ 12 + length tail
unfolding to_le
length-wire_vector (x, y, z) tail = omega arith

length-wire_mag : (m : Option Vector) (tail : List ℕ) → length (wire_mag m tail) ≡ 13 + length tail
length-wire_mag none tail = omega (arith, length-wire_vector (0, 0, 0) tail)
length-wire_mag (some v) tail = omega (arith, length-wire_vector v tail)

length-wire_sample :
    (s : ImuSample) (tail : List ℕ) → length (wire_sample s tail) ≡ 45 + length tail
unfolding wire_sample
length-wire_sample s tail = omega (
  arith,
  length-append (to_le 8 s.timestamp_us)
      (wire_vector s.gyro (wire_vector s.accel (wire_mag s.mag tail))),
  length-to_le 8 s.timestamp_us,
  length-wire_vector s.gyro (wire_vector s.accel (wire_mag s.mag tail)),
  length-wire_vector s.accel (wire_mag s.mag tail),
  length-wire_mag s.mag tail,
)

wire_vector-append :
    (v : Vector) (tail rest : List ℕ) → wire_vector v tail ++ rest ≡ wire_vector v (tail ++ rest)
unfolding to_le
wire_vector-append (x, y, z) tail rest = refl

wire_mag-append :
    (m : Option Vector) (tail rest : List ℕ) → wire_mag m tail ++ rest ≡ wire_mag m (tail ++ rest)
wire_mag-append none tail rest = ap (λ l. 0 ∷ l) (wire_vector-append (0, 0, 0) tail rest)
wire_mag-append (some v) tail rest = ap (λ l. 1 ∷ l) (wire_vector-append v tail rest)

wire_sample-append : (s : ImuSample) (rest : List ℕ) → wire_sample s [] ++ rest ≡ wire_sample s rest
unfolding wire_sample
wire_sample-append s rest =
    append_assoc (to_le 8 s.timestamp_us) _ rest
    ∙ ap (λ l. to_le 8 s.timestamp_us ++ l)
        (wire_vector-append s.gyro (wire_vector s.accel (wire_mag s.mag [])) rest
          ∙ ap (wire_vector s.gyro) (
              wire_vector-append s.accel (wire_mag s.mag []) rest
              ∙ ap (wire_vector s.accel) (wire_mag-append s.mag [] rest)))

read_sample-wire_sample :
    (pre : List ℕ) (s : ImuSample) (tail : List ℕ)
    → IsSample s
    → read_sample (pre ++ wire_sample s tail) (length pre) ≡ some s
read_sample-wire_sample pre s tail (hts, hg, ha, hm) =
    read_sample-skip pre (wire_sample s tail) (length pre) 0 (omega arith)
    ∙ front s.timestamp_us s.gyro s.accel s.mag tail hts hg ha hm

-- The prefix of what follows a sample.
moved :
    (pre : List ℕ) (s : ImuSample) (rest : List ℕ)
    → pre ++ wire_sample s rest ≡ (pre ++ wire_sample s []) ++ rest
moved pre s rest =
    ap (λ l. pre ++ l) (sym (wire_sample-append s rest))
    ∙ sym (append_assoc pre (wire_sample s []) rest)

width : (pre : List ℕ) (s : ImuSample) → length pre + 45 ≡ length (pre ++ wire_sample s [])
width pre s = omega (arith, length-append pre (wire_sample s []), length-wire_sample s [])

-- Samples behind a prefix are read back.
pub read_samples-wire_samples :
    (pre : List ℕ) (ss : List ImuSample) (tail : List ℕ)
    → AreSamples ss
    → read_samples (pre ++ wire_samples ss tail) (length pre) (length ss) ≡ some ss
unfolding read_samples
read_samples-wire_samples pre [] tail h = refl
read_samples-wire_samples pre (s ∷ ss) tail (h, hs) =
    >>=_step (read_sample (pre ++ wire_sample s (wire_samples ss tail)) (length pre)) _
      (read_sample-wire_sample pre s (wire_samples ss tail) h)
      (>>=_step _ _
        (ap₂ (λ l n. read_samples l n (length ss)) (moved pre s (wire_samples ss tail))
            (width pre s)
          ∙ read_samples-wire_samples (pre ++ wire_sample s []) ss tail hs)
        refl)

pub length-wire_samples :
    (ss : List ImuSample) (tail : List ℕ)
    → length (wire_samples ss tail) ≡ length ss * 45 + length tail
length-wire_samples [] tail = omega arith
length-wire_samples (s ∷ ss) tail =
    omega (arith, length-wire_sample s (wire_samples ss tail), length-wire_samples ss tail)
