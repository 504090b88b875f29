-- ===== src/Slices.antt =====
-- Reads of a byte slice, as crates/device-remote/src/protocol.rs and crates/device-joycon/src/report.rs
-- make them. A read out of range panics in Rust; that is `none` here.
use everything_imu.Prelude.{
  length-take, length-drop, drop-append_le, take-append_le, ltb, ltb_false→le, if_cases, ℕ, zero,
  suc, ◌+◌, ◌-◌, ◌≤◌, ◌<◌, ◌≡◌, refl, ◌∙◌, ap, List, [], ◌∷◌, ◌++◌, Option, none, some, Bool, true,
  false, ◌&&◌, ◌==◌, leb, if◌then◌else◌, length, take, drop, from_le, arith, length-append,
  take-append, drop-append, if_true, sym, from_le-to_le, length-to_le, to_le, drop-drop, ◌^◌,
}
use mathlib.Core.Path.{ap₂}

infixl 5 ◌>>=◌
abbrev pub ◌>>=◌ {ℓ κ} : {A : Type ℓ} {B : Type κ} → Option A → (A → Option B) → Option B
none >>= f = none
some a >>= f = f a

-- `p[i]`.
abbrev pub at : List ℕ → ℕ → Option ℕ
at [] i = none
at (x ∷ xs) zero = some x
at (x ∷ xs) (suc i) = at xs i

-- `p[a..b]`.
abbrev pub slice : List ℕ → ℕ → ℕ → Option (List ℕ)
slice xs a b = if leb a b && leb b (length xs) then some (take (b - a) (drop a xs)) else none

-- `==` on two byte slices.
abbrev pub same : List ℕ → List ℕ → Bool
same [] [] = true
same [] (y ∷ ys) = false
same (x ∷ xs) [] = false
same (x ∷ xs) (y ∷ ys) = x == y && same xs ys

unfoldable pub u16le : List ℕ → ℕ → Option ℕ
u16le b o = do b0 ← at b o; b1 ← at b (o + 1); some (from_le (b0 ∷ b1 ∷ []))

-- An `f32` is its bit pattern.
unfoldable pub f32le : List ℕ → ℕ → Option ℕ
f32le b o = do
  b0 ← at b o
  b1 ← at b (o + 1)
  b2 ← at b (o + 2)
  b3 ← at b (o + 3)
  some (from_le (b0 ∷ b1 ∷ b2 ∷ b3 ∷ []))

unfoldable pub u64le : List ℕ → ℕ → Option ℕ
u64le b o = do bytes ← slice b o (o + 8); some (from_le bytes)

-- The read does not panic.
abbrev pub Returns {ℓ} : {A : Type ℓ} → Option A → Type ℓ
Returns {A = A} m = (a : A) × (m ≡ some a)

pub >>=-Returns {ℓ κ} :
    {A : Type ℓ} {B : Type κ} (m : Option A) (f : A → Option B)
    → Returns m
    → ((a : A) → m ≡ some a → Returns (f a))
    → Returns (m >>= f)
>>=-Returns none f (a, h) k = absurd (ground (arith, h))
>>=-Returns (some b) f (a, h) k = k b refl

pub at-Returns : (xs : List ℕ) (i : ℕ) → i < length xs → Returns (at xs i)
at-Returns [] i h = absurd (omega arith)
at-Returns (x ∷ xs) zero h = (x, refl)
at-Returns (x ∷ xs) (suc i) h = at-Returns xs i (omega arith)

pub slice-Returns : (xs : List ℕ) (a b : ℕ) → a ≤ b → b ≤ length xs → Returns (slice xs a b)
slice-Returns xs a b h k = (take (b - a) (drop a xs), ground arith)

pub u16le-Returns : (b : List ℕ) (o : ℕ) → o + 2 ≤ length b → Returns (u16le b o)
unfolding u16le
u16le-Returns b o h = >>=-Returns (at b o) _ (at-Returns b o (omega arith)) (λ b0 e0.
    >>=-Returns (at b (o + 1)) _ (at-Returns b (o + 1) (omega arith)) (λ b1 e1. (_, refl)))

pub f32le-Returns : (b : List ℕ) (o : ℕ) → o + 4 ≤ length b → Returns (f32le b o)
unfolding f32le
f32le-Returns b o h = >>=-Returns (at b o) _ (at-Returns b o (omega arith)) (λ b0 e0.
    >>=-Returns (at b (o + 1)) _ (at-Returns b (o + 1) (omega arith)) (λ b1 e1.
      >>=-Returns (at b (o + 2)) _ (at-Returns b (o + 2) (omega arith)) (λ b2 e2.
        >>=-Returns (at b (o + 3)) _ (at-Returns b (o + 3) (omega arith)) (λ b3 e3. (_, refl)))))

pub u64le-Returns : (b : List ℕ) (o : ℕ) → o + 8 ≤ length b → Returns (u64le b o)
unfolding u64le
u64le-Returns b o h =
    >>=-Returns (slice b o (o + 8)) _ (slice-Returns b o (o + 8) (omega arith) h)
      (λ bytes e. (_, refl))

-- A test, and a length test, before a read.
pub chosen :
    {A : Type 0} (b : Bool) (x y : Option A) → Returns x → Returns y → Returns (if b then x else y)
chosen b x y hx hy = if_cases Returns b (λ e. hx) (λ e. hy)

pub guarded :
    {A : Type 0} (n m : ℕ) (x y : Option A)
    → Returns x
    → (m ≤ n → Returns y)
    → Returns (if ltb n m then x else y)
guarded n m x y hx hy = if_cases Returns (ltb n m) (λ e. hx) (λ e. hy (ltb_false→le n m e))

-- A successful read is followed by what is built on it.
pub >>=_step {ℓ κ} :
    {A : Type ℓ} {B : Type κ} (m : Option A) (f : A → Option B) {a : A} {r : Option B}
    → m ≡ some a
    → f a ≡ r
    → (m >>= f) ≡ r
>>=_step m f h e = ap (λ o. o >>= f) h ∙ e

pub slice-front : (xs ys : List ℕ) {n : ℕ} → length xs ≡ n → slice (xs ++ ys) 0 n ≡ some xs
slice-front xs ys {n = n} h =
    if_true (leb 0 n && leb n (length (xs ++ ys))) _ none (ground (arith, length-append xs ys))
    ∙ ap (λ k. some (take k (xs ++ ys))) (sub-zero n ∙ sym h)
    ∙ ap some (take-append xs ys)
  where
    sub-zero : (n : ℕ) → n - 0 ≡ n
    sub-zero n = omega arith

pub at-skip : (pre ys : List ℕ) (o k : ℕ) → o ≡ length pre + k → at (pre ++ ys) o ≡ at ys k
at-skip [] ys o k h = ap (at ys) {y = k} (omega (arith, h))
at-skip (x ∷ pre) ys zero k h = absurd (omega (arith, h))
at-skip (x ∷ pre) ys (suc o) k h = at-skip pre ys o k (omega (arith, h))

drop-skip : (pre ys : List ℕ) (a : ℕ) → drop (length pre + a) (pre ++ ys) ≡ drop a ys
drop-skip pre ys a = drop-drop (length pre) a (pre ++ ys) ∙ ap (drop a) (drop-append pre ys)

pub slice-skip :
    (pre ys : List ℕ) (a b : ℕ) → slice (pre ++ ys) (length pre + a) (length pre + b) ≡ slice ys a b
slice-skip pre ys a b = rw (drop-skip pre ys a, tests, width)
  where
    tests :
        (leb (length pre + a) (length pre + b) && leb (length pre + b) (length (pre ++ ys)))
        ≡ (leb a b && leb b (length ys))
    tests = ground (arith, length-append pre ys)

    width : (length pre + b) - (length pre + a) ≡ b - a
    width = omega arith

pub slice-append :
    (xs ys : List ℕ) (a b : ℕ) → a ≤ b → b ≤ length xs → slice (xs ++ ys) a b ≡ slice xs a b
slice-append xs ys a b h k = rw (tests, drop-append_le a xs ys (omega arith), front) refl
  where
    tests : (leb a b && leb b (length (xs ++ ys))) ≡ (leb a b && leb b (length xs))
    tests = ground (arith, length-append xs ys)

    front : take (b - a) (drop a xs ++ ys) ≡ take (b - a) (drop a xs)
    front = take-append_le (b - a) (drop a xs) ys (omega (arith, length-drop a xs))

pub at-append : (xs ys : List ℕ) (i : ℕ) → i < length xs → at (xs ++ ys) i ≡ at xs i
at-append [] ys i h = absurd (omega arith)
at-append (x ∷ xs) ys zero h = refl
at-append (x ∷ xs) ys (suc i) h = at-append xs ys i (omega arith)

pub u16le-skip : (pre ys : List ℕ) (o k : ℕ) → o ≡ length pre + k → u16le (pre ++ ys) o ≡ u16le ys k
unfolding u16le
u16le-skip pre ys o k h =
    rw (at-skip pre ys o k h, at-skip pre ys (o + 1) (k + 1) (omega (arith, h)))

pub f32le-skip : (pre ys : List ℕ) (o k : ℕ) → o ≡ length pre + k → f32le (pre ++ ys) o ≡ f32le ys k
unfolding f32le
f32le-skip pre ys o k h = rw (
  at-skip pre ys o k h,
  at-skip pre ys (o + 1) (k + 1) (omega (arith, h)),
  at-skip pre ys (o + 2) (k + 2) (omega (arith, h)),
  at-skip pre ys (o + 3) (k + 3) (omega (arith, h)),
)

pub u64le-skip : (pre ys : List ℕ) (o k : ℕ) → o ≡ length pre + k → u64le (pre ++ ys) o ≡ u64le ys k
unfolding u64le
u64le-skip pre ys o k h =
    let far : o + 8 ≡ length pre + (k + 8) = omega (arith, h) in
    ap₂ (λ a b. slice (pre ++ ys) a b >>= λ bytes. some (from_le bytes)) h far
    ∙ ap (λ o. o >>= λ bytes. some (from_le bytes)) (slice-skip pre ys k (k + 8))

pub u64le-front : (x : ℕ) (tail : List ℕ) → x < 2 ^ 64 → u64le (to_le 8 x ++ tail) 0 ≡ some x
unfolding u64le
u64le-front x tail h =
    >>=_step _ _ (slice-front (to_le 8 x) tail (length-to_le 8 x)) (ap some (from_le-to_le 8 x h))

pub u16le-front : (x : ℕ) (tail : List ℕ) → x < 2 ^ 16 → u16le (to_le 2 x ++ tail) 0 ≡ some x
unfolding u16le to_le
u16le-front x tail h = ap some (from_le-to_le 2 x h)

pub f32le-front : (x : ℕ) (tail : List ℕ) → x < 2 ^ 32 → f32le (to_le 4 x ++ tail) 0 ≡ some x
unfolding f32le to_le
f32le-front x tail h = ap some (from_le-to_le 4 x h)

-- The part between two others.
pub slice-middle :
    (xs ys zs : List ℕ) (a b : ℕ)
    → a ≡ length xs
    → b ≡ length xs + length ys
    → slice (xs ++ (ys ++ zs)) a b ≡ some ys
slice-middle xs ys zs a b ha hb =
    ap₂ (slice (xs ++ (ys ++ zs))) start hb
    ∙ slice-skip xs (ys ++ zs) 0 (length ys)
    ∙ slice-front ys zs refl
  where
    start : a ≡ length xs + 0
    start = omega arith

some-injective : {v w : List ℕ} → some v ≡ some w → v ≡ w
some-injective {v = v} e = ap (λ o. elim o [ none ↦ v | some x ↦ x ]) e

pub slice-length :
    (xs : List ℕ) (a n : ℕ) {ys : List ℕ}
    → a + n ≤ length xs
    → slice xs a (a + n) ≡ some ys
    → length ys ≡ n
slice-length xs a n {ys = ys} h e =
    let found : slice xs a (a + n) ≡ some (take (a + n - a) (drop a xs)) =
      if_true (leb a (a + n) && leb (a + n) (length xs)) _ none (ground arith) in
    let same : take (a + n - a) (drop a xs) ≡ ys = some-injective (sym found ∙ e) in
    omega (arith, ap length same, length-take (a + n - a) (drop a xs), length-drop a xs)
