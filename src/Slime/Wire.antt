-- ===== src/Slime/Wire.antt =====
-- The `deku` crate as an interface, and the readers and writers that its attributes call for.
-- A writer takes the bytes that follow it; a reader returns what it has not consumed.
use everything_imu.Prelude.{
  ℕ, ◌<◌, ◌^◌, ◌≡◌, refl, List, [], ◌++◌, Option, none, some, arith, leb, if◌then◌else◌, length,
  take, drop, to_be, from_be, take-append, drop-append, length-append, take-to_be, drop-to_be,
  from_be-to_be, length-to_be,
}

-- Integers of `w` bytes under `endian = "big"`: what `deku` documents of its primitives.
pub record Deku : Type 0 where
  pub uint_bytes : ℕ → ℕ → List ℕ
  pub read_uint : ℕ → List ℕ → Option (ℕ × List ℕ)
  pub uint_bytes_be : (w x : ℕ) → x < 256 ^ w → uint_bytes w x ≡ to_be w x
  pub read_uint_be :
      (w x : ℕ) (rest : List ℕ) → x < 256 ^ w → read_uint w (to_be w x ++ rest) ≡ some (x, rest)
  pub read_uint_short : (w : ℕ) (bs : List ℕ) → length bs < w → read_uint w bs ≡ none

abbrev pub Reader {ℓ} : Type ℓ → Type ℓ
Reader A = List ℕ → Option (A × List ℕ)

infixl 5 ◌>>=◌ ◌>>◌
unfoldable pub ◌>>=◌ {ℓ κ} : {A : Type ℓ} {B : Type κ} → Reader A → (A → Reader B) → Reader B
◌>>=◌ m f bs = elim (m bs) [ none ↦ none | some (a, rest) ↦ f a rest ]

unfoldable pub ◌>>◌ {ℓ κ} : {A : Type ℓ} {B : Type κ} → Reader A → Reader B → Reader B
unfolding ◌>>=◌
m >> k = m >>= λ _. k

abbrev pub return {ℓ} : {A : Type ℓ} → A → Reader A
return a bs = some (a, bs)

abbrev pub fail {ℓ} : {A : Type ℓ} → Reader A
fail bs = none

-- An id that the enum does not list is a read error.
abbrev pub or_fail {ℓ} : {A : Type ℓ} → Option A → Reader A
or_fail none = fail
or_fail (some a) = return a

-- `[u8; n]`, and `Vec<u8>` under `count = n`.
unfoldable pub read_bytes : ℕ → Reader (List ℕ)
read_bytes n bs = if leb n (length bs) then some (take n bs, drop n bs) else none

-- `read_all`.
abbrev pub read_all : Reader (List ℕ)
read_all bs = some (bs, [])

-- A successful read is followed by what is built on it.
module _ {ℓ κ} {A : Type ℓ} {B : Type κ} where
  pub >>=_step :
      (m : Reader A) (f : A → Reader B) {bs rest : List ℕ} {a : A} {r : Option (B × List ℕ)}
      → m bs ≡ some (a, rest)
      → f a rest ≡ r
      → (m >>= f) bs ≡ r
  unfolding ◌>>=◌
  >>=_step m f h k = rw (h, ◌>>=◌) k

  pub >>=_fail : (m : Reader A) (f : A → Reader B) {bs : List ℕ} → m bs ≡ none → (m >>= f) bs ≡ none
  unfolding ◌>>=◌
  >>=_fail m f h = rw (h, ◌>>=◌)

  pub >>_step :
      (m : Reader A) (k : Reader B) {bs rest : List ℕ} {a : A} {r : Option (B × List ℕ)}
      → m bs ≡ some (a, rest)
      → k rest ≡ r
      → (m >> k) bs ≡ r
  unfolding ◌>>◌
  >>_step m k h e = >>=_step m (λ _. k) h e

pub or_fail_lem {ℓ} :
    {A : Type ℓ} (o : Option A) (bs : List ℕ) {a : A} → o ≡ some a → or_fail o bs ≡ some (a, bs)
or_fail_lem o bs h = rw h

pub read_bytes_lem : (xs rest : List ℕ) → read_bytes (length xs) (xs ++ rest) ≡ some (xs, rest)
unfolding read_bytes
read_bytes_lem xs rest =
    rw (take-append xs rest, drop-append xs rest, length-append xs rest) (ground arith)

module _ (d : Deku) where
  pub read_uint-uint_bytes :
      (w x : ℕ) (rest : List ℕ)
      → x < 256 ^ w
      → d.read_uint w (d.uint_bytes w x ++ rest) ≡ some (x, rest)
  read_uint-uint_bytes w x rest h = rw (d.uint_bytes_be w x h) (d.read_uint_be w x rest h)

  pub length-uint_bytes : (w x : ℕ) → x < 256 ^ w → length (d.uint_bytes w x) ≡ w
  length-uint_bytes w x h = rw (d.uint_bytes_be w x h) (length-to_be w x)

-- Big-endian integers meet the interface.
read_be : ℕ → List ℕ → Option (ℕ × List ℕ)
read_be w bs = if leb w (length bs) then some (from_be (take w bs), drop w bs) else none

read_be-to_be :
    (w x : ℕ) (rest : List ℕ) → x < 256 ^ w → read_be w (to_be w x ++ rest) ≡ some (x, rest)
unfolding read_be
read_be-to_be w x rest h =
    rw
      (
        take-to_be w x rest,
        drop-to_be w x rest,
        from_be-to_be w x h,
        length-append (to_be w x) rest,
        length-to_be w x,
      )
      (ground arith)

read_be_short : (w : ℕ) (bs : List ℕ) → length bs < w → read_be w bs ≡ none
unfolding read_be
read_be_short w bs h = ground arith

unfoldable pub big_endian : Deku
unfolding read_be read_be-to_be read_be_short
big_endian = record {
  uint_bytes = to_be;
  read_uint = read_be;
  uint_bytes_be = λ w x h. refl;
  read_uint_be = read_be-to_be;
  read_uint_short = read_be_short;
}
