-- ===== src/Tests/Trackers.antt =====
-- The BLE tracker's stream in small notifications, and the task of a remote device.
use everything_imu.Prelude.{
  ℕ, List, [], ◌∷◌, map, none, some, ok, err, true, take, if◌then◌else◌, ◌≡◌, refl, All, arith,
  to_le,
}
use everything_imu.Traits.Reset.{full}
use everything_imu.Hopx.Protocol.{RecordParser, new_parser, drain_chunks}
use everything_imu.Hopx.Protocol.Drain.{IsChunk, IsPartial, drain_chunks-Returns}
use everything_imu.Hopx.Protocol.Stream.{Sample, wire, raw, feed_all, feed_all-wire}
use everything_imu.Remote.Protocol.{phone, Announce}
use everything_imu.Remote.Hub.{RemoteDevice, RemoteEvent, battery_event, reset_event, new_device}
use everything_imu.Remote.Device.{already_started, reader, start, Started, story, reader_lem}

abbrev first : Sample
first = record { seq = 1; x0 = 34; x1 = 65535; x2 = 2; x3 = 3; x4 = 4; x5 = 34 }

abbrev second : Sample
second = record { seq = 2; x0 = 0; x1 = 1; x2 = 2; x3 = 3; x4 = 4; x5 = 5 }

-- Twenty bytes and eight.
abbrev notifications : List (List ℕ)
notifications =
    (34 ∷ 1 ∷ 34 ∷ 0 ∷ 255 ∷ 255 ∷ 2 ∷ 0 ∷ 3 ∷ 0 ∷ 4 ∷ 0 ∷ 34 ∷ 0 ∷ 34 ∷ 2 ∷ 0 ∷ 0 ∷ 1 ∷ 0 ∷ [])
    ∷ (2 ∷ 0 ∷ 3 ∷ 0 ∷ 4 ∷ 0 ∷ 5 ∷ 0 ∷ [])
    ∷ []

feed_all-wire_example :
    feed_all new_parser notifications ≡ some (map raw (first ∷ second ∷ []), new_parser)
unfolding wire to_le
feed_all-wire_example = feed_all-wire (first ∷ second ∷ []) notifications (omega arith) refl

drain_chunks-Returns_example :
    (chunks : List (List ℕ)) × (p' : RecordParser) × (drain_chunks new_parser (7 ∷ 34 ∷ 8 ∷ [])
      ≡ some (chunks, p'))
    × All IsChunk chunks
    × IsPartial p'.buf
drain_chunks-Returns_example = drain_chunks-Returns new_parser (7 ∷ 34 ∷ 8 ∷ [])

abbrev pixel : Announce
pixel = record {
  handle = 7;
  kind = phone;
  mac = 2 ∷ 0 ∷ 0 ∷ 0 ∷ 0 ∷ 9 ∷ [];
  has_mag = true;
  has_battery = true;
  has_rumble = true;
  rate_hz = 200;
  name = 80 ∷ 120 ∷ [];
}

abbrev events : List RemoteEvent
events = battery_event 0 true ∷ reset_event full ∷ []

abbrev dev : RemoteDevice
dev = new_device pixel 0

reader_lem_example :
    (reader dev events 3 ≡ (if dev.haptics_only then [] else take 3 (story dev events)))
    × ((d : Started) × (start (record { dev = dev; event_rx = some events; task = none }) 3 ≡ ok d)
        × (d.task ≡ some (if dev.haptics_only then [] else take 3 (story dev events)))
        × (start d 3 ≡ err already_started))
reader_lem_example = reader_lem dev events 3
