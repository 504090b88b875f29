-- ===== src/Joycon/Jc2/Total.antt =====
-- crates/device-joycon/src/jc2.rs: no input makes a parser panic.
use everything_imu.Prelude.{
  ℕ, zero, suc, ◌+◌, ◌-◌, ◌≤◌, ◌<◌, min, List, Option, none, some, ltb, leb, if◌then◌else◌,
  if_cases, length, refl, arith,
}
use everything_imu.Slices.{
  at, slice, same, u16le, f32le, Returns, >>=-Returns, at-Returns, slice-Returns, u16le-Returns,
  f32le-Returns,
}
use everything_imu.Remote.Protocol.{Vector}
use everything_imu.Joycon.Jc2.{
  FloatOps, JoyCon2Kind, first_at, or_hint, scan_pid, kind_of_block, kind_from_manufacturer_data,
  read_i16_3, read_0x05, parse_input_report_0x05, nintendo_adv_prefix,
}
use everything_imu.Joycon.Jc2.Flash.{
  contains_addr_le, extract_pid_from_flash_response, extract_mag_bias_from_flash_response,
}

first_at-Returns {ℓ} :
    {A : Type ℓ} (f : ℕ → Option (Option A)) (off n : ℕ)
    → ((i : ℕ) → i < off + n → Returns (f i))
    → Returns (first_at f off n)
first_at-Returns f off zero h = (none, refl)
first_at-Returns {A = A} f off (suc n) h = >>=-Returns (f off) _ (h off (omega arith)) (λ found e.
    elim found
      as (λ r.
        Returns {A = Option A}
          (elim r [ none ↦ first_at f (off + 1) n | some a ↦ some (some a) ])) [
            | none ↦ first_at-Returns f (off + 1) n (λ i k. h i (omega arith))
            | some a ↦ (some a, refl)
          ])

scan_pid-Returns : (block : List ℕ) → Returns (scan_pid block)
unfolding scan_pid
scan_pid-Returns block =
    if_cases Returns (leb 6 (length block))
      (λ t. first_at-Returns _ 4 (length block - 5) (λ i h.
        >>=-Returns (u16le block i) _ (u16le-Returns block i (ground (arith, t, h)))
          (λ w e. (_, refl))))
      (λ f. (none, refl))

or_hint-Returns :
    (block : List ℕ) (found : Option (Option JoyCon2Kind))
    → 5 ≤ length block
    → Returns (or_hint block found)
or_hint-Returns block none h =
    >>=-Returns (at block 4) _ (at-Returns block 4 (omega arith)) (λ x e. (_, refl))
or_hint-Returns block (some found) h = (found, refl)

kind_of_block-Returns : (block : List ℕ) → 5 ≤ length block → Returns (kind_of_block block)
unfolding kind_of_block
kind_of_block-Returns block h =
    >>=-Returns (slice block 0 4) _ (slice-Returns block 0 4 (omega arith) (omega arith))
      (λ prefix e.
        >>=-Returns (if same prefix nintendo_adv_prefix then scan_pid block else some (some none)) _
          (if_cases Returns (same prefix nintendo_adv_prefix) (λ t. scan_pid-Returns block)
            (λ f. (some none, refl)))
          (λ found e. or_hint-Returns block found h))

kind_from_manufacturer_data-Returns :
    (block : Option (List ℕ)) → Returns (kind_from_manufacturer_data block)
unfolding kind_from_manufacturer_data
kind_from_manufacturer_data-Returns none = (none, refl)
kind_from_manufacturer_data-Returns (some block) =
    if_cases Returns (ltb (length block) 5) (λ t. (none, refl))
      (λ f. kind_of_block-Returns block (ground (arith, f)))

read_i16_3-Returns : (buf : List ℕ) (o : ℕ) → o + 6 ≤ length buf → Returns (read_i16_3 buf o)
unfolding read_i16_3
read_i16_3-Returns buf o h =
    >>=-Returns (u16le buf o) _ (u16le-Returns buf o (omega arith)) (λ x ex.
      >>=-Returns (u16le buf (o + 2)) _ (u16le-Returns buf (o + 2) (omega arith)) (λ y ey.
        >>=-Returns (u16le buf (o + 4)) _ (u16le-Returns buf (o + 4) (omega arith))
          (λ z ez. (_, refl))))

contains_addr_le-Returns : (bytes : List ℕ) (addr : ℕ) → Returns (contains_addr_le bytes addr)
unfolding contains_addr_le
contains_addr_le-Returns bytes addr =
    if_cases Returns (ltb (length bytes) 8) (λ t. (none, refl))
      (λ f. first_at-Returns _ 4 (min (length bytes - 4) 24 - 3) (λ i h.
        >>=-Returns (slice bytes i (i + 4)) _
          (slice-Returns bytes i (i + 4) (omega arith) (ground (arith, f, h)))
          (λ part e. (_, refl))))

extract_pid_from_flash_response-Returns :
    (bytes : List ℕ) → Returns (extract_pid_from_flash_response bytes)
unfolding extract_pid_from_flash_response
extract_pid_from_flash_response-Returns bytes =
    if_cases Returns (ltb (length bytes) 14) (λ t. (none, refl))
      (λ f. first_at-Returns _ 8 (min (length bytes - 2) 24 - 7) (λ i h.
        >>=-Returns (u16le bytes i) _ (u16le-Returns bytes i (ground (arith, f, h)))
          (λ pid e. (_, refl))))

module _ (ops : FloatOps) where
  read_0x05-Returns :
      (kind : JoyCon2Kind) (buf : List ℕ) (bias : Option Vector)
      → 60 ≤ length buf
      → Returns (read_0x05 ops kind buf bias)
  unfolding read_0x05
  read_0x05-Returns kind buf bias h =
      >>=-Returns (read_i16_3 buf 48) _ (read_i16_3-Returns buf 48 (omega arith)) (λ accel e1.
        >>=-Returns (read_i16_3 buf 54) _ (read_i16_3-Returns buf 54 (omega arith)) (λ gyro e2.
          >>=-Returns (read_i16_3 buf 25) _ (read_i16_3-Returns buf 25 (omega arith)) (λ mag e3.
            >>=-Returns (u16le buf 31) _ (u16le-Returns buf 31 (omega arith)) (λ mv e4.
              >>=-Returns (at buf 33) _ (at-Returns buf 33 (omega arith)) (λ state e5.
                >>=-Returns (at buf 5) _ (at-Returns buf 5 (omega arith)) (λ b e6. (_, refl)))))))

  parse_input_report_0x05-Returns :
      (kind : JoyCon2Kind) (buf : List ℕ) (bias : Option Vector)
      → Returns (parse_input_report_0x05 ops kind buf bias)
  unfolding parse_input_report_0x05
  parse_input_report_0x05-Returns kind buf bias =
      if_cases Returns (ltb (length buf) 60) (λ t. (none, refl))
        (λ f.
          >>=-Returns (read_0x05 ops kind buf bias) _
            (read_0x05-Returns kind buf bias (ground (arith, f))) (λ r e. (some r, refl)))

  extract_mag_bias_from_flash_response-Returns :
      (bytes : List ℕ) → Returns (extract_mag_bias_from_flash_response ops bytes)
  unfolding extract_mag_bias_from_flash_response
  extract_mag_bias_from_flash_response-Returns bytes =
      if_cases Returns (ltb (length bytes) 20) (λ t. (none, refl))
        (λ f. first_at-Returns _ 8 (min (length bytes - 12) 24 - 7) (λ i h.
          >>=-Returns (f32le bytes i) _ (f32le-Returns bytes i (ground (arith, f, h))) (λ x e1.
            >>=-Returns (f32le bytes (i + 4)) _ (f32le-Returns bytes (i + 4) (ground (arith, f, h)))
              (λ y e2.
                >>=-Returns (f32le bytes (i + 8)) _
                  (f32le-Returns bytes (i + 8) (ground (arith, f, h))) (λ z e3. (_, refl))))))

  -- No advertisement, no input report and no reply of the flash makes a parser of the Joy-Con 2
  -- panic, however long it is.
  pub jc2_parsers-Returns :
      (kind : JoyCon2Kind) (block : Option (List ℕ)) (bytes : List ℕ) (bias : Option Vector)
      (addr : ℕ)
      → Returns (kind_from_manufacturer_data block)
        × Returns (parse_input_report_0x05 ops kind bytes bias)
        × Returns (contains_addr_le bytes addr)
        × Returns (extract_pid_from_flash_response bytes)
        × Returns (extract_mag_bias_from_flash_response ops bytes)
  jc2_parsers-Returns kind block bytes bias addr = (
    kind_from_manufacturer_data-Returns block,
    parse_input_report_0x05-Returns kind bytes bias,
    contains_addr_le-Returns bytes addr,
    extract_pid_from_flash_response-Returns bytes,
    extract_mag_bias_from_flash_response-Returns bytes,
  )
