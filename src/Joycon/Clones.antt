-- ===== src/Joycon/Clones.antt =====
-- crates/device-joycon/src/clone_detection.rs. A `&str` is the list of its bytes: a character that is
-- not ASCII has bytes above 127, which no test here accepts.
use everything_imu.Prelude.{
  ℕ, ◌+◌, ◌≡◌, refl, ap, ◌∙◌, List, [], ◌∷◌, map, Bool, true, false, not, ◌&&◌, ◌||◌, leb, ◌==◌,
  ==_iff, if◌then◌else◌, Bool-cases, inl, inr, length, arith,
}

pub data ProControllerVariant : Type 0 where
  nintendo bitdo8_pro2 bitdo8_ultimate2 unknown_clone : ProControllerVariant

unfoldable pub is_clone : ProControllerVariant → Bool
is_clone nintendo = false
is_clone bitdo8_pro2 = true
is_clone bitdo8_ultimate2 = true
is_clone unknown_clone = true

-- `to_ascii_lowercase` on a byte.
abbrev pub lower : ℕ → ℕ
lower b = if leb 65 b && leb b 90 then b + 32 else b

-- `is_ascii_hexdigit`.
abbrev pub is_hexdigit : ℕ → Bool
is_hexdigit b = (leb 48 b && leb b 57) || ((leb 65 b && leb b 70) || (leb 97 b && leb b 102))

abbrev pub all_hex : List ℕ → Bool
all_hex [] = true
all_hex (b ∷ bs) = is_hexdigit b && all_hex bs

abbrev pub starts_with : List ℕ → List ℕ → Bool
starts_with [] bs = true
starts_with (n ∷ ns) [] = false
starts_with (n ∷ ns) (b ∷ bs) = n == b && starts_with ns bs

-- `contains`.
abbrev pub contains : List ℕ → List ℕ → Bool
contains needle [] = starts_with needle []
contains needle (b ∷ bs) = starts_with needle (b ∷ bs) || contains needle bs

unfoldable pub is_nintendo_style_mac : List ℕ → Bool
is_nintendo_style_mac serial = length serial == 12 && all_hex serial

-- "pro2", "pro 2", "ultimate2", "ultimate 2" and "8bitdo".
abbrev pub pro2 : List ℕ
pro2 = 112 ∷ 114 ∷ 111 ∷ 50 ∷ []

abbrev pub pro_2 : List ℕ
pro_2 = 112 ∷ 114 ∷ 111 ∷ 32 ∷ 50 ∷ []

abbrev pub ultimate2 : List ℕ
ultimate2 = 117 ∷ 108 ∷ 116 ∷ 105 ∷ 109 ∷ 97 ∷ 116 ∷ 101 ∷ 50 ∷ []

abbrev pub ultimate_2 : List ℕ
ultimate_2 = 117 ∷ 108 ∷ 116 ∷ 105 ∷ 109 ∷ 97 ∷ 116 ∷ 101 ∷ 32 ∷ 50 ∷ []

abbrev pub bitdo8 : List ℕ
bitdo8 = 56 ∷ 98 ∷ 105 ∷ 116 ∷ 100 ∷ 111 ∷ []

abbrev pub is_empty : List ℕ → Bool
is_empty [] = true
is_empty (b ∷ bs) = false

unfoldable pub classify_serial : List ℕ → ProControllerVariant
unfolding is_nintendo_style_mac
classify_serial serial =
    let s_lower = map lower serial in
    if is_empty serial
    then nintendo
    else if contains pro2 s_lower || contains pro_2 s_lower
    then bitdo8_pro2
    else if contains ultimate2 s_lower || contains ultimate_2 s_lower
    then bitdo8_ultimate2
    else if contains bitdo8 s_lower
    then unknown_clone
    else if is_nintendo_style_mac serial
    then nintendo
    else unknown_clone

-- A word with a character that no hexadecimal number has.
abbrev has_other : List ℕ → Bool
has_other [] = false
has_other (n ∷ ns) = not (is_hexdigit n) || has_other ns

lower-hex : (b : ℕ) → is_hexdigit b ≡ true → is_hexdigit (lower b) ≡ true
lower-hex b h = ground arith

and_parts : (x y : Bool) → (x && y) ≡ true → (x ≡ true) × (y ≡ true)
and_parts true y h = (refl, h)
and_parts false y h = absurd (ground (arith, h))

and_false : (x y : Bool) → y ≡ false → (x && y) ≡ false
and_false true y h = h
and_false false y h = refl

or_false : (x y : Bool) → x ≡ false → y ≡ false → (x || y) ≡ false
or_false true y h k = absurd (ground (arith, h))
or_false false y h k = k

-- If the first character is a digit, the other one comes later.
later : (b : Bool) {rest : Bool} → (not b || rest) ≡ true → b ≡ true → rest ≡ true
later true h e = h
later false h e = absurd (ground (arith, e))

starts_with-hex :
    (needle s : List ℕ)
    → has_other needle ≡ true
    → all_hex s ≡ true
    → starts_with needle (map lower s) ≡ false
starts_with-hex [] s h a = absurd (ground (arith, h))
starts_with-hex (n ∷ ns) [] h a = refl
starts_with-hex (n ∷ ns) (b ∷ bs) h a =
    let (digit, digits) = and_parts (is_hexdigit b) (all_hex bs) a in
    elim (Bool-cases (n == lower b)) [
      | inl t ↦ and_false (n == lower b) _ (
          starts_with-hex ns bs
            (later (is_hexdigit n) h
              (ap is_hexdigit ((==_iff n (lower b)).0 t) ∙ lower-hex b digit))
            digits)
      | inr f ↦ ap (λ x. x && starts_with ns (map lower bs)) f
    ]

contains-hex :
    (needle s : List ℕ)
    → has_other needle ≡ true
    → all_hex s ≡ true
    → contains needle (map lower s) ≡ false
contains-hex needle [] h a = starts_with-hex needle [] h a
contains-hex needle (b ∷ bs) h a =
    or_false (starts_with needle (map lower (b ∷ bs))) (contains needle (map lower bs))
      (starts_with-hex needle (b ∷ bs) h a)
      (contains-hex needle bs h (and_parts (is_hexdigit b) (all_hex bs) a).1)

-- The chain of tests, when a serial of digits passes none of the first three.
decided :
    (e pro ultimate other mac : Bool)
    → (mac ≡ true → (pro ≡ false) × (ultimate ≡ false) × (other ≡ false))
    → is_clone (
        if e
        then nintendo
        else if pro
        then bitdo8_pro2
        else if ultimate
        then bitdo8_ultimate2
        else if other
        then unknown_clone
        else if mac
        then nintendo
        else unknown_clone)
      ≡ not (e || mac)
unfolding is_clone
decided true pro ultimate other mac h = refl
decided false true ultimate other false h = refl
decided false false true other false h = refl
decided false false false true false h = refl
decided false false false false false h = refl
decided false pro ultimate other true h = let (p, u, o) = h refl in rw (p, u, o)

-- A serial is taken for a Nintendo controller's exactly if it is empty or has twelve hexadecimal digits.
pub classify_serial_lem :
    (serial : List ℕ)
    → is_clone (classify_serial serial) ≡ not (is_empty serial || is_nintendo_style_mac serial)
unfolding classify_serial is_nintendo_style_mac
classify_serial_lem serial =
    decided (is_empty serial) _ _ _ (length serial == 12 && all_hex serial) (λ m.
      let digits = (and_parts (length serial == 12) (all_hex serial) m).1 in
      (
        or_false _ _ (contains-hex pro2 serial refl digits) (contains-hex pro_2 serial refl digits),
        or_false _ _ (contains-hex ultimate2 serial refl digits)
            (contains-hex ultimate_2 serial refl digits),
        contains-hex bitdo8 serial refl digits,
      ))
