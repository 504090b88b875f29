-- ===== src/Joycon/Subcmd.antt =====
-- Output reports of crates/device-joycon/src/subcmd.rs.
use everything_imu.Prelude.{ℕ, List, [], ◌∷◌, ◌++◌, bit_and, to_le}

abbrev pub neutral_rumble_frame : List ℕ
neutral_rumble_frame = 0 ∷ 1 ∷ 64 ∷ 64 ∷ []

unfoldable pub build_report_0x01 : ℕ → ℕ → List ℕ → List ℕ
build_report_0x01 packet_counter subcmd_id subcmd_data =
    1
    ∷ bit_and packet_counter 15
    ∷ (neutral_rumble_frame ++ (neutral_rumble_frame ++ (subcmd_id ∷ subcmd_data)))

unfoldable pub build_report_0x80 : ℕ → List ℕ
build_report_0x80 opcode = 128 ∷ opcode ∷ []

unfoldable pub build_report_0x10 : ℕ → List ℕ → List ℕ
build_report_0x10 packet_counter frame = 16 ∷ bit_and packet_counter 15 ∷ (frame ++ frame)

unfoldable pub enable_imu : ℕ → List ℕ
unfolding build_report_0x01
enable_imu packet_counter = build_report_0x01 packet_counter 64 (1 ∷ [])

unfoldable pub enable_rumble : ℕ → List ℕ
unfolding build_report_0x01
enable_rumble packet_counter = build_report_0x01 packet_counter 72 (1 ∷ [])

unfoldable pub set_player_leds : ℕ → ℕ → List ℕ
unfolding build_report_0x01
set_player_leds packet_counter mask = build_report_0x01 packet_counter 48 (mask ∷ [])

unfoldable pub set_input_report_mode : ℕ → ℕ → List ℕ
unfolding build_report_0x01
set_input_report_mode packet_counter mode = build_report_0x01 packet_counter 3 (mode ∷ [])

unfoldable pub spi_read : ℕ → ℕ → ℕ → List ℕ
unfolding build_report_0x01
spi_read packet_counter addr len = build_report_0x01 packet_counter 16 (to_le 4 addr ++ (len ∷ []))

unfoldable pub device_info : ℕ → List ℕ
unfolding build_report_0x01
device_info packet_counter = build_report_0x01 packet_counter 2 []
