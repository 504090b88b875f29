-- ===== src/Haptics/Config.antt =====
-- crates/osc-haptics/src/config.rs: the addresses of the rules. A string is the list of its characters.
pub mod Idempotent
use everything_imu.Prelude.{
  ℕ, List, [], ◌∷◌, ◌++◌, Bool, true, false, ◌&&◌, leb, ◌==◌, if◌then◌else◌, map,
}
use everything_imu.Haptics.Mapping.{HapticRule}

abbrev pub default_osc_port : ℕ
default_osc_port = 9001

-- `char::is_whitespace`.
abbrev pub is_whitespace : ℕ → Bool
is_whitespace c =
    if leb 9 c && leb c 13
    then true
    else if c == 32
    then true
    else if c == 0x85
    then true
    else if c == 0xA0
    then true
    else if c == 0x1680
    then true
    else if leb 0x2000 c && leb c 0x200A
    then true
    else if c == 0x2028
    then true
    else if c == 0x2029
    then true
    else if c == 0x202F
    then true
    else if c == 0x205F
    then true
    else c == 0x3000

abbrev pub trim_start : List ℕ → List ℕ
trim_start [] = []
trim_start (c ∷ cs) = let rest = trim_start cs in if is_whitespace c then rest else c ∷ cs

-- A character in front of what is left.
abbrev pub kept : ℕ → List ℕ → List ℕ
kept c [] = if is_whitespace c then [] else c ∷ []
kept c (d ∷ ds) = c ∷ d ∷ ds

abbrev pub trim_end : List ℕ → List ℕ
trim_end [] = []
trim_end (c ∷ cs) = kept c (trim_end cs)

abbrev pub trim : List ℕ → List ℕ
trim s = trim_end (trim_start s)

-- "/avatar/parameters/".
abbrev pub vrchat_param_prefix : List ℕ
vrchat_param_prefix =
    47 ∷ 97 ∷ 118 ∷ 97 ∷ 116 ∷ 97 ∷ 114 ∷ 47 ∷ 112 ∷ 97 ∷ 114 ∷ 97 ∷ 109 ∷ 101 ∷ 116 ∷ 101 ∷ 114
    ∷ 115 ∷ 47 ∷ []

-- What is made of a trimmed address.
abbrev pub prefixed : List ℕ → List ℕ
prefixed [] = []
prefixed (c ∷ cs) = if c == 47 then c ∷ cs else vrchat_param_prefix ++ c ∷ cs

unfoldable pub normalize_address : List ℕ → List ℕ
normalize_address raw = prefixed (trim raw)

abbrev pub normalize : HapticRule → HapticRule
normalize r = record r { osc_address = normalize_address r.osc_address }

pub record HapticConfig : Type 0 where
  pub enabled : Bool
  pub listen_port : ℕ
  pub rules : List HapticRule

abbrev pub default_config : HapticConfig
default_config = record { enabled = false; listen_port = default_osc_port; rules = [] }

unfoldable pub normalize_rules : HapticConfig → HapticConfig
normalize_rules c = record c { rules = map normalize c.rules }
