-- ===== src/Tests/Joycons.antt =====
-- Joy-Con reports on concrete bytes.
use everything_imu.Prelude.{
  none, ℕ, true, err, ltb, leb, ◌-◌, ◌<◌, from_le, ◌≡◌, refl, List, [], ◌∷◌, some, ok, false, arith,
}
use everything_imu.Slices.{Returns, u16le}
use everything_imu.Joycon.Report.{
  ImuRawSample, ButtonsRaw, decode_battery, parse_0x30, parse_0x21_spi_reply,
}
use everything_imu.Joycon.Report.RoundTrip.{
  full_report, spi_reply, parse_0x30-full_report, parse_0x21_spi_reply-spi_reply,
}
use mathlib.Core.Logic.{◌⊎◌}
use everything_imu.Joycon.Jc2.{
  JoyCon2Kind, left, right, pro, kind_from_manufacturer_data, kind_of_block, scan_pid,
  parse_input_report_0x05,
}
use everything_imu.Joycon.Jc2.Flash.{
  contains_addr_le, build_flash_read_cmd, extract_pid_from_flash_response,
  extract_mag_bias_from_flash_response,
}
use everything_imu.Joycon.Jc2 as Jc2
use everything_imu.Joycon.Jc2.Total.{jc2_parsers-Returns}
use everything_imu.Joycon.SpiCal.{
  FloatOps, ImuCalibration, wrong_length, parse_factory_block, read_block, read_i16_3,
  calibration_of_block, plausible_offset, user_override_magic_present, zero_calibration,
}
use everything_imu.Joycon.SpiCal.Plausible.{IsPlausible, parse_factory_block-IsPlausible}
use everything_imu.Joycon.Clones.{
  is_clone, classify_serial, is_nintendo_style_mac, classify_serial_lem,
}

abbrev resting : ImuRawSample
resting = record { accel = (1, 2, 4096); gyro = (65535, 0, 6) }

abbrev buttons : ButtonsRaw
buttons = record { low = 0; high = 0; shared = 16 }

abbrev sticks : List ℕ
sticks = 0 ∷ 8 ∷ 128 ∷ 0 ∷ 8 ∷ 128 ∷ 12 ∷ []

parse_0x30-full_report_example :
    parse_0x30 (full_report 170 144 buttons sticks resting resting resting [])
    ≡ some (
        ok (record {
          timer = 170;
          battery = decode_battery 144;
          buttons = buttons;
          imu_samples = (resting, resting, resting);
        }))
parse_0x30-full_report_example =
    parse_0x30-full_report 170 144 buttons sticks resting resting resting [] refl (ground arith)
      (ground arith) (ground arith)

abbrev front : List ℕ
front = 0 ∷ 142 ∷ 0 ∷ 0 ∷ 0 ∷ 0 ∷ 8 ∷ 128 ∷ 0 ∷ 8 ∷ 128 ∷ 0 ∷ []

parse_0x21_spi_reply-spi_reply_example :
    parse_0x21_spi_reply (spi_reply front 144 24608 (171 ∷ 172 ∷ []) (0 ∷ []))
    ≡ some (some (record { addr = 24608; payload = 171 ∷ 172 ∷ [] }))
parse_0x21_spi_reply-spi_reply_example =
    parse_0x21_spi_reply-spi_reply front 144 24608 (171 ∷ 172 ∷ []) (0 ∷ []) refl (omega arith)

-- "98B6E9F5C311", a serial of a Nintendo controller.
abbrev serial : List ℕ
serial = 57 ∷ 56 ∷ 66 ∷ 54 ∷ 69 ∷ 57 ∷ 70 ∷ 53 ∷ 67 ∷ 51 ∷ 49 ∷ 49 ∷ []

classify_serial_lem_example : is_clone (classify_serial serial) ≡ false
unfolding is_nintendo_style_mac
classify_serial_lem_example = classify_serial_lem serial

-- A processor whose numbers are whole, and that finds no coefficient to be finite.
abbrev no_finite : FloatOps
no_finite = record {
  sub = λ a b. a - b;
  mul = λ a b. a;
  div = λ a b. a;
  abs = λ a. a;
  lt = ltb;
  le = leb;
  is_finite = λ a. false;
  of_i16 = λ a. a;
}

-- The first offset of the accelerometer is 10, or 2001; the sensitivities are not programmed.
abbrev block_with : ℕ → ℕ → List ℕ
block_with low high =
    low ∷ high ∷ 20 ∷ 0 ∷ 30 ∷ 0 ∷ 255 ∷ 255 ∷ 255 ∷ 255 ∷ 255 ∷ 255 ∷ 0xFB ∷ 0xFF ∷ 7 ∷ 0 ∷ 0 ∷ 0
    ∷ 0 ∷ 0 ∷ 0 ∷ 0 ∷ 0 ∷ 0 ∷ []

reads_block :
    parse_factory_block no_finite (block_with 10 0)
    ≡ some
        (ok (record zero_calibration { accel_offset = (10, 20, 30); gyro_offset = (0xFFFB, 7, 0) }))
unfolding parse_factory_block read_block read_i16_3 calibration_of_block plausible_offset u16le
    from_le
reads_block = refl

refuses_block :
    parse_factory_block no_finite (block_with 0xD1 7)
    ≡ some (ok (record zero_calibration { plausibility_warning = true }))
unfolding parse_factory_block read_block read_i16_3 calibration_of_block plausible_offset u16le
    from_le
refuses_block = refl

knows_magic : user_override_magic_present (0xB2 ∷ 0xA1 ∷ []) ≡ true
unfolding user_override_magic_present from_le
knows_magic = refl

parse_factory_block-IsPlausible_example :
    (parse_factory_block no_finite (block_with 0xD1 7) ≡ some (err (wrong_length 24)) × (24 < 24))
    ⊎ ((c : ImuCalibration) × (parse_factory_block no_finite (block_with 0xD1 7) ≡ some (ok c))
        × IsPlausible no_finite c)
parse_factory_block-IsPlausible_example =
    parse_factory_block-IsPlausible no_finite (block_with 0xD1 7)

abbrev whole_numbers : Jc2.FloatOps
whole_numbers = record {
  add = λ a b. a;
  sub = λ a b. a - b;
  mul = λ a b. a;
  div = λ a b. a;
  neg = λ a. a;
  abs = λ a. a;
  sqrt = λ a. a;
  lt = ltb;
  le = leb;
  eq = λ a b. leb a b;
  is_finite = λ a. true;
  clamp = λ a lo hi. a;
  of_i16 = λ a. a;
  of_u16 = λ a. a;
}

-- The product id 0x2067 stands behind one other byte.
abbrev advertisement : List ℕ
advertisement = 1 ∷ 0 ∷ 3 ∷ 0x7E ∷ 0 ∷ 0x67 ∷ 0x20 ∷ []

finds_left : kind_from_manufacturer_data (some advertisement) ≡ some (some left)
unfolding kind_from_manufacturer_data kind_of_block scan_pid u16le from_le
finds_left = refl

assumes_right :
    kind_from_manufacturer_data (some (1 ∷ 0 ∷ 3 ∷ 0x7E ∷ 0x42 ∷ [])) ≡ some (some right)
unfolding kind_from_manufacturer_data kind_of_block scan_pid
assumes_right = refl

finds_address : contains_addr_le (build_flash_read_cmd 0x00013012 2) 0x00013012 ≡ some (some tt)
unfolding contains_addr_le
finds_address = refl

jc2_parsers-Returns_example :
    Returns (kind_from_manufacturer_data (some advertisement))
    × Returns (parse_input_report_0x05 whole_numbers left advertisement none)
    × Returns (contains_addr_le advertisement 7)
    × Returns (extract_pid_from_flash_response advertisement)
    × Returns (extract_mag_bias_from_flash_response whole_numbers advertisement)
jc2_parsers-Returns_example =
    jc2_parsers-Returns whole_numbers left (some advertisement) advertisement none 7
