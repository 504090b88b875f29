-- ===== src/DualSense/Report/Bluetooth.antt =====
-- crates/device-dualsense/src/report.rs: a report says the same over USB and over Bluetooth.
use everything_imu.Prelude.{
  ℕ, ◌+◌, ◌≤◌, ◌<◌, List, [], ◌∷◌, ◌++◌, Option, some, ◌≡◌, refl, sym, ap, ◌∙◌, length,
  length-append, append-nil, arith,
}
use everything_imu.Slices.{◌>>=◌}
use everything_imu.DualSense.Report.{
  FloatOps, ControllerKind, dual_sense, dual_sense_edge, dual_shock_4, SonyCalibration, ImuOffsets,
  for_report, usb_offsets, bluetooth_offsets, ps_button_at, parse_ps_button, parse_at, parse_shape,
  parse_report,
}
use everything_imu.PsMove.Report.{Outbox}
use everything_imu.DualSense.Report.Payload.{plain, behind, parse_at-payload}

-- Where the parts stand in the payload, which is the same for both.
abbrev payload_offsets : ControllerKind → ImuOffsets
payload_offsets dual_sense = record { gyro = 15; accel = 21; battery = some 52; buttons_2 = some 9 }
payload_offsets dual_sense_edge = record {
  gyro = 15;
  accel = 21;
  battery = some 52;
  buttons_2 = some 9;
}
payload_offsets dual_shock_4 = record {
  gyro = 12;
  accel = 18;
  battery = some 29;
  buttons_2 = some 6;
}

-- The length of what stands before the payload over Bluetooth.
abbrev pub header_len : ControllerKind → ℕ
header_len dual_sense = 2
header_len dual_sense_edge = 2
header_len dual_shock_4 = 3

for_report-usb :
    (kind : ControllerKind) {n : ℕ} → n ≡ 64 → for_report kind n ≡ some (usb_offsets kind)
unfolding for_report
for_report-usb kind h = ap (for_report kind) h

for_report-bluetooth :
    (kind : ControllerKind) {n : ℕ} → 78 ≤ n → for_report kind n ≡ some (bluetooth_offsets kind)
unfolding for_report
for_report-bluetooth kind h = ground arith

-- The report does to the pipeline and to the buttons what its payload does.
module _ (ops : FloatOps) (kind : ControllerKind) (cal : Option SonyCalibration)
    (out : Outbox) where
  abbrev SaysPayload : List ℕ → List ℕ → Type 0
  SaysPayload buf p =
      (parse_report ops kind buf cal out ≡ parse_at ops kind p cal out (payload_offsets kind))
      × (parse_ps_button kind buf ≡ ps_button_at p (payload_offsets kind))

  says-payload :
      (header p tail : List ℕ) (o : ImuOffsets) (g a b c : ℕ)
      → for_report kind (length (header ++ (p ++ tail))) ≡ some o
      → o ≡ behind header p tail g a b c
      → payload_offsets kind ≡ plain g a b c
      → g + 6 ≤ length p
      → a + 10 ≤ length p
      → b < length p
      → c < length p
      → SaysPayload (header ++ (p ++ tail)) p
  unfolding parse_report parse_ps_button
  says-payload header p tail o g a b c shape e q hg ha hb hc =
      let buf = header ++ (p ++ tail) in
      let (x, y) = parse_at-payload header p tail ops kind cal out o g a b c e hg ha hb hc in
      (
        ap (parse_shape ops kind buf cal out) shape ∙ x ∙ ap (parse_at ops kind p cal out) (sym q),
        ap (λ s. s >>= (λ o. ps_button_at buf o)) shape ∙ y ∙ ap (ps_button_at p) (sym q),
      )

module _ (ops : FloatOps) (cal : Option SonyCalibration) (out : Outbox) where
  usb-payload :
      (kind : ControllerKind) (id : ℕ) (p : List ℕ)
      → length p ≡ 63
      → SaysPayload ops kind cal out (id ∷ (p ++ [])) p
  usb-payload kind id p size = of_kind kind
    where
      shape : (k : ControllerKind) → for_report k (length (id ∷ (p ++ []))) ≡ some (usb_offsets k)
      shape k = for_report-usb k (omega (arith, length-append p [], size))

      of_kind : (k : ControllerKind) → SaysPayload ops k cal out (id ∷ (p ++ [])) p
      of_kind dual_sense =
          says-payload ops dual_sense cal out (id ∷ []) p [] _ 15 21 52 9 (shape dual_sense) refl
            refl (omega arith) (omega arith) (omega arith) (omega arith)
      of_kind dual_sense_edge =
          says-payload ops dual_sense_edge cal out (id ∷ []) p [] _ 15 21 52 9
            (shape dual_sense_edge) refl refl (omega arith) (omega arith) (omega arith)
            (omega arith)
      of_kind dual_shock_4 =
          says-payload ops dual_shock_4 cal out (id ∷ []) p [] _ 12 18 29 6 (shape dual_shock_4)
            refl refl (omega arith) (omega arith) (omega arith) (omega arith)

  bluetooth-payload :
      (kind : ControllerKind) (header p tail : List ℕ)
      → length p ≡ 63
      → length header ≡ header_len kind
      → 78 ≤ length (header ++ (p ++ tail))
      → SaysPayload ops kind cal out (header ++ (p ++ tail)) p
  bluetooth-payload kind header p tail size h long = of_kind kind h
    where
      at_header :
          {n : ℕ} (g a b c : ℕ)
          → length header ≡ n
          → plain (n + g) (n + a) (n + b) (n + c) ≡ behind header p tail g a b c
      at_header g a b c e = ap (λ n. plain (n + g) (n + a) (n + b) (n + c)) (sym e)

      shape :
          (k : ControllerKind)
          → for_report k (length (header ++ (p ++ tail))) ≡ some (bluetooth_offsets k)
      shape k = for_report-bluetooth k long

      of_kind :
          (k : ControllerKind)
          → length header ≡ header_len k
          → SaysPayload ops k cal out (header ++ (p ++ tail)) p
      of_kind dual_sense e =
          says-payload ops dual_sense cal out header p tail _ 15 21 52 9 (shape dual_sense)
            (at_header 15 21 52 9 e) refl (omega arith) (omega arith) (omega arith) (omega arith)
      of_kind dual_sense_edge e =
          says-payload ops dual_sense_edge cal out header p tail _ 15 21 52 9
            (shape dual_sense_edge) (at_header 15 21 52 9 e) refl (omega arith) (omega arith)
            (omega arith) (omega arith)
      of_kind dual_shock_4 e =
          says-payload ops dual_shock_4 cal out header p tail _ 12 18 29 6 (shape dual_shock_4)
            (at_header 12 18 29 6 e) refl (omega arith) (omega arith) (omega arith) (omega arith)

  -- The report of a controller over Bluetooth does to the pipeline, and to the button, what the report
  -- over USB with the same 63 bytes of payload does. Over Bluetooth two bytes stand before the
  -- payload, three for a DualShock 4, and with anything behind it the report has 78 bytes at least.
  pub parse_report-bluetooth :
      (kind : ControllerKind) (id : ℕ) (header p tail : List ℕ)
      → length p ≡ 63
      → length header ≡ header_len kind
      → 78 ≤ length (header ++ (p ++ tail))
      → (parse_report ops kind (header ++ (p ++ tail)) cal out
          ≡ parse_report ops kind (id ∷ p) cal out)
        × (parse_ps_button kind (header ++ (p ++ tail)) ≡ parse_ps_button kind (id ∷ p))
  parse_report-bluetooth kind id header p tail size h long =
      let (x, y) = bluetooth-payload kind header p tail size h long in
      let (u, v) = usb-payload kind id p size in
      (
        x ∙ sym u ∙ ap (λ q. parse_report ops kind (id ∷ q) cal out) (append-nil p),
        y ∙ sym v ∙ ap (λ q. parse_ps_button kind (id ∷ q)) (append-nil p),
      )
