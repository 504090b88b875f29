-- ===== src/Remote/Utf8.antt =====
-- `std::str::from_utf8`, which crates/device-remote/src/protocol.rs applies to names. A `String` is the
-- list of its bytes.
use everything_imu.Prelude.{
  ℕ, List, [], ◌∷◌, Option, none, some, Bool, true, false, ◌&&◌, ltb, leb, ◌==◌, if◌then◌else◌,
}

-- The ranges of the bytes that must follow this first byte of a character, if it is one.
abbrev follow : ℕ → Option (List (ℕ × ℕ))
follow b =
    if ltb b 128
    then some []
    else if ltb b 194
    then none
    else if ltb b 224
    then some ((128, 191) ∷ [])
    else if b == 224
    then some ((160, 191) ∷ (128, 191) ∷ [])
    else if b == 237
    then some ((128, 159) ∷ (128, 191) ∷ [])
    else if ltb b 240
    then some ((128, 191) ∷ (128, 191) ∷ [])
    else if b == 240
    then some ((144, 191) ∷ (128, 191) ∷ (128, 191) ∷ [])
    else if ltb b 244
    then some ((128, 191) ∷ (128, 191) ∷ (128, 191) ∷ [])
    else if b == 244
    then some ((128, 143) ∷ (128, 191) ∷ (128, 191) ∷ [])
    else none

unfoldable pub is_utf8_after : List (ℕ × ℕ) → List ℕ → Bool
is_utf8_after [] [] = true
is_utf8_after ((lo, hi) ∷ ranges) [] = false
is_utf8_after ((lo, hi) ∷ ranges) (b ∷ bs) = leb lo b && (leb b hi && is_utf8_after ranges bs)
is_utf8_after [] (b ∷ bs) = elim (follow b) [ none ↦ false | some ranges ↦ is_utf8_after ranges bs ]

unfoldable pub is_utf8 : List ℕ → Bool
unfolding is_utf8_after
is_utf8 bs = is_utf8_after [] bs

-- `from_utf8(bytes).ok()`, as a `String`.
unfoldable pub from_utf8 : List ℕ → Option (List ℕ)
unfolding is_utf8
from_utf8 bs = if is_utf8 bs then some bs else none
