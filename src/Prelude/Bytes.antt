-- ===== src/Prelude/Bytes.antt =====
-- Integers as bytes: `to_be_bytes`, `from_be_bytes` and their little-endian twins.
use Prim.Native.Nat.{ℕ, zero, suc, ◌+◌, ◌*◌, ◌/◌, ◌%◌, ◌^◌, ◌≤◌, ◌<◌}
use mathlib.Core.Path.{◌≡◌, refl, sym, ap, ◌∙◌, subst}
use mathlib.Core.List.{List, [], ◌∷◌, ◌++◌}
use native.Mathlib.Omega.{arith}
use native.Mathlib.Nat.{
  div-add-mod, mod-lt, mod-eq_of_lt, pow-suc, mul-add-div_right, div-eq_of_lt,
  mul-add-mod_self_right,
}
use everything_imu.Prelude.Lists.{
  length, All, take, drop, take-append, drop-append, length-take, All-take,
}

abbrev pub IsByte : ℕ → Type 0
IsByte b = b < 256

-- `x.to_be_bytes()` for a word of `w` bytes, most significant byte first.
unfoldable pub to_be : ℕ → ℕ → List ℕ
to_be zero x = []
to_be (suc w) x = (x / 256 ^ w % 256) ∷ to_be w (x % 256 ^ w)

-- `from_be_bytes` over the bytes of a word.
unfoldable pub from_be_acc : ℕ → List ℕ → ℕ
from_be_acc acc [] = acc
from_be_acc acc (b ∷ bs) = from_be_acc (acc * 256 + b) bs

abbrev pub from_be : List ℕ → ℕ
from_be bs = from_be_acc 0 bs

unfoldable pub to_le : ℕ → ℕ → List ℕ
to_le zero x = []
to_le (suc w) x = (x % 256) ∷ to_le w (x / 256)

unfoldable pub from_le : List ℕ → ℕ
from_le [] = 0
from_le (b ∷ bs) = b + 256 * from_le bs

pub length-to_be : (w x : ℕ) → length (to_be w x) ≡ w
unfolding to_be
length-to_be zero x = refl
length-to_be (suc w) x = ap suc (length-to_be w (x % 256 ^ w))

pub length-to_le : (w x : ℕ) → length (to_le w x) ≡ w
unfolding to_le
length-to_le zero x = refl
length-to_le (suc w) x = ap suc (length-to_le w (x / 256))

pub to_be-IsByte : (w x : ℕ) → All IsByte (to_be w x)
unfolding to_be
to_be-IsByte zero x = tt
to_be-IsByte (suc w) x = (omega arith, to_be-IsByte w (x % 256 ^ w))

pub to_le-IsByte : (w x : ℕ) → All IsByte (to_le w x)
unfolding to_le
to_le-IsByte zero x = tt
to_le-IsByte (suc w) x = (omega arith, to_le-IsByte w (x / 256))

pub pow-pos : (w : ℕ) → 0 < 256 ^ w
pow-pos zero = omega arith
pow-pos (suc w) = omega (arith, pow-suc 256 w, pow-pos w)

-- The leading digit of a number below `p * 256` is a byte, and the two parts make the number.
leading-lt : (p x : ℕ) → 0 < p → x < p * 256 → x / p < 256
leading-lt p x hp h = grind (arith, div-add-mod x p)

split_leading :
    (p acc x : ℕ)
    → 0 < p
    → x < p * 256
    → (acc * 256 + x / p % 256) * p + x % p ≡ acc * (p * 256) + x
split_leading p acc x hp h =
    rw (mod-eq_of_lt (leading-lt p x hp h)) (omega (arith, div-add-mod x p))

from_be_acc-to_be : (w acc x : ℕ) → x < 256 ^ w → from_be_acc acc (to_be w x) ≡ acc * 256 ^ w + x
unfolding to_be from_be_acc
from_be_acc-to_be zero acc x h = omega arith
from_be_acc-to_be (suc w) acc x h = omega (
  arith,
  from_be_acc-to_be w (acc * 256 + x / 256 ^ w % 256) (x % 256 ^ w) (mod-lt x (pow-pos w)),
  split_leading (256 ^ w) acc x (pow-pos w) (omega (arith, pow-suc 256 w)),
  pow-suc 256 w,
  ap (λ (t : ℕ). acc * t) (pow-suc 256 w),
)

pub from_be-to_be : (w x : ℕ) → x < 256 ^ w → from_be (to_be w x) ≡ x
from_be-to_be w x h = omega (arith, from_be_acc-to_be w 0 x h)

pub from_le-to_le : (w x : ℕ) → x < 256 ^ w → from_le (to_le w x) ≡ x
unfolding to_le from_le
from_le-to_le zero x h = omega arith
from_le-to_le (suc w) x h =
    omega (arith, from_le-to_le w (x / 256) (omega (arith, pow-suc 256 w)), pow-suc 256 w)

-- A word in front of more bytes, cut off again.
pub take-to_be : (w x : ℕ) (rest : List ℕ) → take w (to_be w x ++ rest) ≡ to_be w x
take-to_be w x rest =
    ap (λ n. take n (to_be w x ++ rest)) (sym (length-to_be w x)) ∙ take-append (to_be w x) rest

pub drop-to_be : (w x : ℕ) (rest : List ℕ) → drop w (to_be w x ++ rest) ≡ rest
drop-to_be w x rest =
    ap (λ n. drop n (to_be w x ++ rest)) (sym (length-to_be w x)) ∙ drop-append (to_be w x) rest

from_be_acc-split :
    (acc : ℕ) (bs : List ℕ) → from_be_acc acc bs ≡ acc * 256 ^ length bs + from_be bs
unfolding from_be_acc
from_be_acc-split acc [] = omega arith
from_be_acc-split acc (b ∷ bs) = omega (
  arith,
  from_be_acc-split (acc * 256 + b) bs,
  from_be_acc-split (0 * 256 + b) bs,
  pow-suc 256 (length bs),
  ap (λ (t : ℕ). acc * t) (pow-suc 256 (length bs)),
)

from_be-cons : (b : ℕ) (bs : List ℕ) → from_be (b ∷ bs) ≡ b * 256 ^ length bs + from_be bs
unfolding from_be_acc
from_be-cons b bs = omega (arith, from_be_acc-split (0 * 256 + b) bs)

digit-lt : (p b r : ℕ) → b < 256 → r < p → b * p + r < p * 256
digit-lt p b r hb hr = grind arith

pub from_be-lt : (bs : List ℕ) → All IsByte bs → from_be bs < 256 ^ length bs
from_be-lt [] h = unfold from_be_acc in omega arith
from_be-lt (b ∷ bs) h =
    rw (from_be-cons b bs, pow-suc 256 (length bs))
      (digit-lt (256 ^ length bs) b (from_be bs) h.0 (from_be-lt bs h.1))

-- A number written in base `p` with one leading digit.
split_digit : (p b r : ℕ) → r < p → ((b * p + r) / p ≡ b) × ((b * p + r) % p ≡ r)
split_digit p b r h = (
  mul-add-div_right (omega arith) b r ∙ omega (arith, div-eq_of_lt h),
  mul-add-mod_self_right b p r ∙ mod-eq_of_lt h,
)

pub to_be-from_be : (bs : List ℕ) → All IsByte bs → to_be (length bs) (from_be bs) ≡ bs
unfolding to_be
to_be-from_be [] h = refl
to_be-from_be (b ∷ bs) h =
    let (q, r) = split_digit (256 ^ length bs) b (from_be bs) (from_be-lt bs h.1) in
    rw (from_be-cons b bs) (rw (q, r, mod-eq_of_lt h.0, to_be-from_be bs h.1))

-- Reading a word at the front and writing it again changes nothing.
pub rewrite_word :
    (w : ℕ) (bs : List ℕ)
    → w ≤ length bs
    → All IsByte bs
    → to_be w (from_be (take w bs)) ≡ take w bs
rewrite_word w bs h bytes =
    let n : length (take w bs) ≡ w = omega (arith, length-take w bs) in
    ap (λ k. to_be k (from_be (take w bs))) (sym n)
    ∙ to_be-from_be (take w bs) (All-take IsByte w bs bytes)

pub word-lt : (w : ℕ) (bs : List ℕ) → w ≤ length bs → All IsByte bs → from_be (take w bs) < 256 ^ w
word-lt w bs h bytes =
    let n : length (take w bs) ≡ w = omega (arith, length-take w bs) in
    subst (λ k. from_be (take w bs) < 256 ^ k) n
      (from_be-lt (take w bs) (All-take IsByte w bs bytes))
