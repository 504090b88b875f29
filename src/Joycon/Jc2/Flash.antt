-- ===== src/Joycon/Jc2/Flash.antt =====
-- Commands and replies of crates/device-joycon/src/jc2.rs, and the MAC address that a hash gives.
use everything_imu.Prelude.{
  ℕ, ◌+◌, ◌-◌, ◌*◌, ◌/◌, ◌%◌, ◌^◌, min, List, [], ◌∷◌, Option, none, some, Bool, true, not, ◌&&◌,
  ltb, ◌==◌, if◌then◌else◌, length,
}
use Prim.Native.Nat.{bit_xor}
use everything_imu.Slices.{◌>>=◌, slice, same, u16le, f32le}
use everything_imu.Remote.Protocol.{Vector}
use everything_imu.Joycon.Jc2.{FloatOps, first_at}

-- 500.0.
abbrev largest_bias : ℕ
largest_bias = 0x43FA0000

abbrev pub build_feature_select_cmd : ℕ → ℕ → List ℕ
build_feature_select_cmd subcmd mask =
    0x0C ∷ 0x91 ∷ 1 ∷ subcmd ∷ 0 ∷ 4 ∷ 0 ∷ 0 ∷ mask ∷ 0 ∷ 0 ∷ 0 ∷ []

abbrev pub build_rumble_preset_cmd : ℕ → List ℕ
build_rumble_preset_cmd preset = 0x0A ∷ 0x91 ∷ 1 ∷ 2 ∷ 0 ∷ 4 ∷ 0 ∷ 0 ∷ preset ∷ 0 ∷ 0 ∷ 0 ∷ []

abbrev pub build_player_led_cmd : ℕ → List ℕ
build_player_led_cmd mask = 9 ∷ 0x91 ∷ 1 ∷ 1 ∷ 0 ∷ 4 ∷ 0 ∷ 0 ∷ (mask % 16) ∷ 0 ∷ 0 ∷ 0 ∷ []

abbrev pub build_flash_read_cmd : ℕ → ℕ → List ℕ
build_flash_read_cmd address len =
    2
    ∷ 0x91
    ∷ 1
    ∷ 1
    ∷ 0
    ∷ 6
    ∷ 0
    ∷ 0
    ∷ (address % 256)
    ∷ (address / 2 ^ 8 % 256)
    ∷ (address / 2 ^ 16 % 256)
    ∷ (address / 2 ^ 24 % 256)
    ∷ (len % 256)
    ∷ (len / 2 ^ 8 % 256)
    ∷ 0
    ∷ 0
    ∷ []

-- The offsets 4 to `length bytes - 4`, to 24 at most.
unfoldable pub contains_addr_le : List ℕ → ℕ → Option (Option (Unit {0}))
contains_addr_le bytes addr =
    let needle =
      (addr % 256) ∷ (addr / 2 ^ 8 % 256) ∷ (addr / 2 ^ 16 % 256) ∷ (addr / 2 ^ 24 % 256) ∷ [] in
    let scan =
      first_at
        (λ i. do part ← slice bytes i (i + 4); some (if same part needle then some tt else none)) 4
        (min (length bytes - 4) 24 - 3) in
    if ltb (length bytes) 8 then some none else scan

abbrev pub is_known_pid : ℕ → Bool
is_known_pid pid =
    if pid == 0x2066
    then true
    else if pid == 0x2067
    then true
    else if pid == 0x2068
    then true
    else if pid == 0x2069
    then true
    else pid == 0x2073

-- The offsets 8 to `length bytes - 2`, to 24 at most.
unfoldable pub extract_pid_from_flash_response : List ℕ → Option (Option ℕ)
extract_pid_from_flash_response bytes =
    let scan =
      first_at (λ off. do pid ← u16le bytes off; some (if is_known_pid pid then some pid else none))
        8 (min (length bytes - 2) 24 - 7) in
    if ltb (length bytes) 14 then some none else scan

unfoldable pub fnv1a_64 : ℕ → List ℕ → ℕ
fnv1a_64 hash [] = hash
fnv1a_64 hash (b ∷ bytes) = fnv1a_64 (bit_xor hash b * 0x00000100000001B3 % 2 ^ 64) bytes

-- The six bytes of a MAC address.
unfoldable pub hash_to_mac : List ℕ → List ℕ
unfolding fnv1a_64
hash_to_mac seed =
    let h = fnv1a_64 0xCBF29CE484222325 seed in
    2
    ∷ (h % 256)
    ∷ (h / 2 ^ 8 % 256)
    ∷ (h / 2 ^ 16 % 256)
    ∷ (h / 2 ^ 24 % 256)
    ∷ (h / 2 ^ 32 % 256)
    ∷ []

module _ (ops : FloatOps) where
  abbrev pub accepted : ℕ → ℕ → ℕ → Option Vector
  accepted bx by_ bz =
      if not (ops.is_finite bx && (ops.is_finite by_ && ops.is_finite bz))
      then none
      else if ops.lt largest_bias (ops.abs bx)
      then none
      else if ops.lt largest_bias (ops.abs by_)
      then none
      else if ops.lt largest_bias (ops.abs bz)
      then none
      else if ops.eq bx 0 && (ops.eq by_ 0 && ops.eq bz 0)
      then none
      else some (bx, by_, bz)

  -- The offsets 8 to `length bytes - 12`, to 24 at most.
  unfoldable pub extract_mag_bias_from_flash_response : List ℕ → Option (Option Vector)
  extract_mag_bias_from_flash_response bytes =
      let scan =
        first_at
          (λ off. do
            bx ← f32le bytes off
            by_ ← f32le bytes (off + 4)
            bz ← f32le bytes (off + 8)
            some (accepted bx by_ bz))
          8 (min (length bytes - 12) 24 - 7) in
      if ltb (length bytes) 20 then some none else scan
