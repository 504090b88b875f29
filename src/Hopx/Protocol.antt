-- ===== src/Hopx/Protocol.antt =====
-- crates/device-hopx/src/protocol.rs. A signed 16-bit channel is its bit pattern; the scaling to SI
-- units is an operation of the processor, a parameter. A read out of range panics in Rust; that is
-- `none` here. The loop that drains the buffer runs on fuel.
pub mod Drain
pub mod Chunks
pub mod Cut
pub mod Stream
use everything_imu.Prelude.{
  ℕ, zero, suc, ◌+◌, ◌<◌, List, [], ◌∷◌, ◌++◌, map, Option, none, some, Bool, true, false, not,
  ◌&&◌, ◌||◌, ltb, ◌==◌, if◌then◌else◌, length, take, drop,
}
use everything_imu.Slices.{◌>>=◌, at, u16le}

abbrev pub frame_marker : ℕ
frame_marker = 0x22

abbrev pub alt_marker : ℕ
alt_marker = 0x25

abbrev pub record_len : ℕ
record_len = 14

abbrev pub start_cmd : List ℕ
start_cmd = 0x20 ∷ 0x10 ∷ 0x00 ∷ 0xD0 ∷ 0x07 ∷ 0x34 ∷ 0x00 ∷ 0x03 ∷ []

abbrev pub stop_cmd : List ℕ
stop_cmd = 0x20 ∷ 0x00 ∷ 0x00 ∷ 0x00 ∷ 0x00 ∷ 0x00 ∷ 0x00 ∷ []

-- "Triki".
abbrev pub name_prefix : List ℕ
name_prefix = 0x54 ∷ 0x72 ∷ 0x69 ∷ 0x6B ∷ 0x69 ∷ []

abbrev pub strip_prefix : List ℕ → List ℕ → Option (List ℕ)
strip_prefix [] name = some name
strip_prefix (p ∷ ps) [] = none
strip_prefix (p ∷ ps) (c ∷ cs) = let rest = strip_prefix ps cs in if p == c then rest else none

-- On a name of ASCII characters, that `trim` takes off white space.
abbrev pub is_space : ℕ → Bool
is_space c = c == 0x20 || (ltb 0x08 c && ltb c 0x0E)

abbrev trim_start : List ℕ → List ℕ
trim_start [] = []
trim_start (c ∷ cs) = let rest = trim_start cs in if is_space c then rest else c ∷ cs

abbrev pub trim_end : List ℕ → List ℕ
trim_end [] = []
trim_end (c ∷ cs) = elim (trim_end cs) [
  | [] ↦ if is_space c then [] else c ∷ []
  | d ∷ ds ↦ c ∷ d ∷ ds
]

abbrev nonempty : List ℕ → Option (List ℕ)
nonempty [] = none
nonempty (c ∷ cs) = some (c ∷ cs)

unfoldable pub serial_from_name : List ℕ → Option (List ℕ)
serial_from_name name = do
  rest ← strip_prefix name_prefix name
  nonempty (trim_end (trim_start rest))

unfoldable pub name_matches : List ℕ → Bool
name_matches name = elim (strip_prefix name_prefix name) [ none ↦ false | some rest ↦ true ]

pub record RecordParser : Type 0 where
  pub buf : List ℕ

abbrev pub new_parser : RecordParser
new_parser = record { buf = [] }

-- The buffer from its first marker on.
abbrev pub from_marker : List ℕ → Option (List ℕ)
from_marker [] = none
from_marker (b ∷ bs) =
    let rest = from_marker bs in if b == frame_marker then some (b ∷ bs) else rest

-- The byte behind a whole record is no marker: the first byte was payload.
abbrev pub is_false_marker : List ℕ → Bool
is_false_marker b = elim (drop record_len b) [
  | [] ↦ false
  | next ∷ more ↦ not (next == frame_marker) && not (next == alt_marker)
]

abbrev pub put_chunk : List ℕ → Option (List (List ℕ) × List ℕ) → Option (List (List ℕ) × List ℕ)
put_chunk chunk none = none
put_chunk chunk (some (chunks, buf)) = some (chunk ∷ chunks, buf)

-- The loop of `drain_chunks`: the chunks and the buffer that is left; `none` if the fuel runs out.
unfoldable pub drain_loop : ℕ → List ℕ → Option (List (List ℕ) × List ℕ)
drain_loop zero buf = none
drain_loop (suc fuel) buf = elim (from_marker buf) [
  | none ↦ some ([], [])
  | some b ↦ elim (ltb (length b) record_len) [
    | true ↦ some ([], b)
    | false ↦ elim (is_false_marker b) [
      | true ↦ drain_loop fuel (drop 1 b)
      | false ↦ put_chunk (take record_len b) (drain_loop fuel (drop record_len b))
    ]
  ]
]

unfoldable pub drain_chunks : RecordParser → List ℕ → Option (List (List ℕ) × RecordParser)
drain_chunks p bytes = do
  (chunks, buf) ← drain_loop (suc (length (p.buf ++ bytes))) (p.buf ++ bytes)
  some (chunks, record { buf = buf })

pub record RawRecord : Type 0 where
  pub seq : ℕ
  pub channels : List ℕ

unfoldable pub parse_raw : List ℕ → Option RawRecord
unfolding u16le
parse_raw chunk = do
  seq ← at chunk 1
  c0 ← u16le chunk 2
  c1 ← u16le chunk 4
  c2 ← u16le chunk 6
  c3 ← u16le chunk 8
  c4 ← u16le chunk 10
  c5 ← u16le chunk 12
  some (record { seq = seq; channels = c0 ∷ c1 ∷ c2 ∷ c3 ∷ c4 ∷ c5 ∷ [] })

abbrev pub parse_each : {A : Type 0} → (List ℕ → Option A) → List (List ℕ) → Option (List A)
parse_each parse [] = some []
parse_each parse (c ∷ cs) = do r ← parse c; rs ← parse_each parse cs; some (r ∷ rs)

unfoldable pub feed_raw : RecordParser → List ℕ → Option (List RawRecord × RecordParser)
feed_raw p bytes = do
  (chunks, p') ← drain_chunks p bytes
  rs ← parse_each parse_raw chunks
  some (rs, p')

-- The conversions of a channel: to `f32`, and times the constant of the sensor.
pub record Scales : Type 0 where
  pub gyro_rad_s : ℕ → ℕ
  pub accel_m_s2 : ℕ → ℕ

pub record ParsedRecord : Type 0 where
  pub seq : ℕ
  pub accel : List ℕ
  pub gyro : List ℕ

abbrev pub remap_axes : List ℕ → List ℕ
remap_axes v = v

unfoldable pub parse_record : Scales → List ℕ → Option ParsedRecord
unfolding u16le
parse_record sc chunk = do
  g0 ← u16le chunk 2
  g1 ← u16le chunk 4
  g2 ← u16le chunk 6
  a0 ← u16le chunk 8
  a1 ← u16le chunk 10
  a2 ← u16le chunk 12
  seq ← at chunk 1
  some (record {
    seq = seq;
    gyro = remap_axes (sc.gyro_rad_s g0 ∷ sc.gyro_rad_s g1 ∷ sc.gyro_rad_s g2 ∷ []);
    accel = remap_axes (sc.accel_m_s2 a0 ∷ sc.accel_m_s2 a1 ∷ sc.accel_m_s2 a2 ∷ []);
  })

unfoldable pub feed : Scales → RecordParser → List ℕ → Option (List ParsedRecord × RecordParser)
feed sc p bytes = do
  (chunks, p') ← drain_chunks p bytes
  rs ← parse_each (parse_record sc) chunks
  some (rs, p')
