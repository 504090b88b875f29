-- ===== src/Remote/Protocol/Wire.antt =====
-- Messages as a hub writes them, by the format that the module comment of crates/device-remote/src/protocol.rs
-- and its tests give.
use everything_imu.Prelude.{
  ℕ, ◌<◌, ◌^◌, ◌≡◌, ◌≢◌, List, ◌∷◌, ◌++◌, Option, none, some, Bool, true, false, length, to_le,
}
use everything_imu.Traits.Reset.{ResetKind, yaw, full, mounting}
use everything_imu.Remote.Utf8.{is_utf8}
use everything_imu.Remote.Protocol.{
  magic, version, DeviceKind, phone, watch, joycon2_l, joycon2_r, pro_controller2, hopx, dual_sense,
  dual_shock4, joycon_l, joycon_r, pro_controller, gamepad, RemoteMsg, hello, announce, remove, imu,
  battery, button,
}
use everything_imu.Remote.Protocol.Samples.{wire_samples, AreSamples}

-- The wire id of a kind, or zero for a kind that has none.
abbrev pub kind_id : DeviceKind → ℕ
kind_id phone = 1
kind_id watch = 2
kind_id joycon2_l = 3
kind_id joycon2_r = 4
kind_id pro_controller2 = 5
kind_id hopx = 6
kind_id dual_sense = 7
kind_id dual_shock4 = 8
kind_id joycon_l = 9
kind_id joycon_r = 10
kind_id pro_controller = 11
kind_id gamepad = 12
kind_id _ = 0

abbrev pub flag : Bool → ℕ
flag true = 1
flag false = 0

abbrev pub header : ℕ → List ℕ → List ℕ
header msg payload = magic ++ (version ∷ msg ∷ payload)

abbrev pub wire_ts : Option ℕ → List ℕ → List ℕ
wire_ts none tail = tail
wire_ts (some ts) tail = to_le 8 ts ++ tail

abbrev pub wire_reset : ResetKind → ℕ
wire_reset yaw = 0
wire_reset full = 1
wire_reset mounting = 1

-- A datagram, with the bytes that stand behind the message in it.
unfoldable pub wire : RemoteMsg → List ℕ → List ℕ
wire (hello uuid name ts) tail = header 1 (uuid ++ (length name ∷ (name ++ wire_ts ts tail)))
wire (announce a) tail = header 3 (
    to_le 2 a.handle
    ++ (kind_id a.kind
        ∷ (a.mac
            ++ (flag a.has_mag
                ∷ flag a.has_battery
                ∷ flag a.has_rumble
                ∷ (to_le 2 a.rate_hz ++ (length a.name ∷ (a.name ++ tail)))))))
wire (remove handle) tail = header 4 (to_le 2 handle ++ tail)
wire (imu handle none samples) tail =
    header 5 (to_le 2 handle ++ (length samples ∷ wire_samples samples tail))
wire (imu handle (some seq) samples) tail =
    header 9 (to_le 2 handle ++ (to_le 2 seq ++ (length samples ∷ wire_samples samples tail)))
wire (battery handle fraction charging) tail =
    header 6 (to_le 2 handle ++ (to_le 4 fraction ++ (flag charging ∷ tail)))
wire (button handle reset) tail = header 7 (to_le 2 handle ++ (wire_reset reset ∷ tail))

abbrev pub IsTs : Option ℕ → List ℕ → Type 0
IsTs none tail = length tail < 8
IsTs (some ts) tail = ts < 2 ^ 64

abbrev pub IsSeq : Option ℕ → Type 0
IsSeq none = Unit {0}
IsSeq (some seq) = seq < 2 ^ 16

-- What the message can hold, in the ranges of the wire. A greeting without a timestamp has fewer than
-- eight bytes behind it.
abbrev pub IsWire : RemoteMsg → List ℕ → Type 0
IsWire (hello uuid name ts) tail = (length uuid ≡ 16) × (is_utf8 name ≡ true) × IsTs ts tail
IsWire (announce a) tail =
    (0 < kind_id a.kind)
    × (a.handle < 2 ^ 16)
    × (length a.mac ≡ 6)
    × (a.rate_hz < 2 ^ 16)
    × (is_utf8 a.name ≡ true)
IsWire (remove handle) tail = handle < 2 ^ 16
IsWire (imu handle seq samples) tail = (handle < 2 ^ 16) × IsSeq seq × AreSamples samples
IsWire (battery handle fraction charging) tail = (handle < 2 ^ 16) × (fraction < 2 ^ 32)
IsWire (button handle reset) tail = (handle < 2 ^ 16) × (reset ≢ mounting)
