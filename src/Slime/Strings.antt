-- ===== src/Slime/Strings.antt =====
-- `SlimeString` of crates/slime-tracker/src/lib.rs. A `&str` is the list of its UTF-8 bytes.
use everything_imu.Prelude.{
  ℕ, ◌%◌, ◌≤◌, ◌≡◌, List, ◌++◌, arith, ltb, if◌then◌else◌, length, take, drop, take-append-drop,
  length-take, Bool-cases, inl, inr, ltb→lt, ltb_false→le, append-nil, drop_all,
}

pub record SlimeString : Type 0 where
  pub count : ℕ
  pub bytes : List ℕ  -- the field `data`

abbrev pub slime_string_max : ℕ
slime_string_max = 255

-- `SlimeString::from(s)`: too long a payload is cut, and `as u8` wraps.
unfoldable pub from_str : List ℕ → SlimeString
from_str s =
    let payload = if ltb slime_string_max (length s) then take slime_string_max s else s in
    record { count = length payload % 256; bytes = payload }

-- The length prefix is the number of bytes that follow it, at most 255, and the bytes are the
-- front of the text: all of it where it fits.
pub from_str_lem :
    (s : List ℕ)
    → ((from_str s).count ≡ length (from_str s).bytes)
      × ((from_str s).count ≤ slime_string_max)
      × ((from_str s).bytes ++ drop slime_string_max s ≡ s)
unfolding from_str
from_str_lem s = elim (Bool-cases (ltb slime_string_max (length s))) [
  | inl long ↦ rw long (
      let n : length (take slime_string_max s) ≡ slime_string_max =
        omega (arith, length-take slime_string_max s, ltb→lt slime_string_max (length s) long) in
      (omega arith, omega arith, take-append-drop slime_string_max s))
  | inr fits ↦ rw fits (
      let n : length s ≤ slime_string_max = ltb_false→le slime_string_max (length s) fits in
      (omega arith, omega arith, rw (drop_all slime_string_max s n) (append-nil s)))
]
