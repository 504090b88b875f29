-- ===== src/Remote/Device.antt =====
-- The task of crates/device-remote/src/device.rs that forwards a device's events to its pipeline.
-- The events are those that the factory puts into the channel until it drops its end, and
-- `accepts` says how many sends the pipeline takes before it drops the other end.
use everything_imu.Prelude.{
  ℕ, zero, suc, List, [], ◌∷◌, ◌++◌, map, Option, none, some, Bool, true, false, Result, ok, err,
  if◌then◌else◌, take, take-nil, append-nil, append_assoc, Bool-cases, inl, inr, if_true, if_false,
  ◌≡◌, refl, ap, ◌∙◌, sym,
}
use everything_imu.Traits.Reset.{ResetKind}
use everything_imu.Remote.Protocol.{ImuSample}
use everything_imu.Remote.Hub.{RemoteEvent, imu_event, battery_event, reset_event, RemoteDevice}

-- The device is known by its handle and its MAC address.
pub data ChannelInfo : Type 0 where
  connected : (mac : List ℕ) (handle : ℕ) → ChannelInfo
  imu_samples : List ImuSample → ChannelInfo
  battery : (fraction : ℕ) (charging : Bool) → ChannelInfo
  reset_requested : ResetKind → ChannelInfo
  disconnected : ChannelInfo

-- What the pipeline has got, and how much more it takes.
pub record Channel : Type 0 where
  pub taken : List ChannelInfo
  pub accepts : ℕ

-- `tx.send(..).await`: the new channel, and whether the deliver was taken.
abbrev pub deliver : Channel → ChannelInfo → Channel × Bool
deliver c info = elim c.accepts [
  | zero ↦ (c, false)
  | suc n ↦ (record { taken = c.taken ++ info ∷ []; accepts = n }, true)
]

abbrev pub to_channel_info : RemoteEvent → ChannelInfo
to_channel_info (imu_event samples) = imu_samples samples
to_channel_info (battery_event fraction charging) = battery fraction charging
to_channel_info (reset_event r) = reset_requested r

-- The loop over the events.
pub forward : Bool → List RemoteEvent → Channel → Channel
forward haptics_only [] c = c
forward true (ev ∷ evs) c = forward true evs c
forward false (ev ∷ evs) c =
    let (c', taken) = deliver c (to_channel_info ev) in
    let rest = forward false evs c' in if taken then rest else c'

-- The task.
unfoldable pub reader : RemoteDevice → List RemoteEvent → ℕ → List ChannelInfo
unfolding forward
reader dev evs accepts =
    let c : Channel = record { taken = []; accepts = accepts } in
    let opened = if dev.haptics_only then c else (deliver c (connected dev.mac dev.handle)).0 in
    let last = forward dev.haptics_only evs opened in
    if dev.haptics_only then last.taken else (deliver last disconnected).0.taken

pub data DeviceError : Type 0 where
  already_started : DeviceError

-- The fields of the device that `start` and `stop` change: the receiver, with the events that
-- arrive, and the task, with what it delivers.
pub record Started : Type 0 where
  pub dev : RemoteDevice
  pub event_rx : Option (List RemoteEvent)
  pub task : Option (List ChannelInfo)

unfoldable pub start : Started → ℕ → Result DeviceError Started
unfolding reader
start d accepts = elim d.event_rx [
  | none ↦ err already_started
  | some evs ↦ ok (record d { event_rx = none; task = some (reader d.dev evs accepts) })
]

unfoldable pub stop : Started → Started
stop d = record d { task = none }

-- The whole of what a device that streams has to say.
abbrev pub story : RemoteDevice → List RemoteEvent → List ChannelInfo
story dev evs = connected dev.mac dev.handle ∷ (map to_channel_info evs ++ disconnected ∷ [])

abbrev Chan : List ChannelInfo → ℕ → Channel
Chan xs n = record { taken = xs; accepts = n }

forward_closed :
    (evs : List RemoteEvent) (xs : List ChannelInfo) → forward false evs (Chan xs 0) ≡ Chan xs 0
unfolding forward
forward_closed [] xs = refl
forward_closed (ev ∷ evs) xs = refl

-- The loop and the last deliver deliver the front of the rest of the story.
forward_delivers :
    (evs : List RemoteEvent) (xs : List ChannelInfo) (n : ℕ)
    → (deliver (forward false evs (Chan xs n)) disconnected).0.taken
      ≡ xs ++ take n (map to_channel_info evs ++ disconnected ∷ [])
unfolding forward
forward_delivers [] xs zero = sym (append-nil xs)
forward_delivers [] xs (suc n) = ap (λ r. xs ++ disconnected ∷ r) (sym (take-nil n))
forward_delivers (ev ∷ evs) xs zero = sym (append-nil xs)
forward_delivers (ev ∷ evs) xs (suc n) =
    forward_delivers evs (xs ++ to_channel_info ev ∷ []) n
    ∙ append_assoc xs (to_channel_info ev ∷ [])
        (take n (map to_channel_info evs ++ disconnected ∷ []))

forward_swallows : (evs : List RemoteEvent) (c : Channel) → forward true evs c ≡ c
unfolding forward
forward_swallows [] c = refl
forward_swallows (ev ∷ evs) c = forward_swallows evs c

streaming :
    (dev : RemoteDevice) (evs : List RemoteEvent) (accepts : ℕ)
    → dev.haptics_only ≡ false
    → reader dev evs accepts ≡ take accepts (story dev evs)
unfolding reader
streaming dev evs zero h = rw h (forward_delivers evs [] 0)
streaming dev evs (suc n) h = rw h (forward_delivers evs (connected dev.mac dev.handle ∷ []) n)

silent :
    (dev : RemoteDevice) (evs : List RemoteEvent) (accepts : ℕ)
    → dev.haptics_only ≡ true
    → reader dev evs accepts ≡ []
unfolding reader
silent dev evs accepts h =
    rw h (ap (λ (c : Channel). c.taken) (forward_swallows evs (Chan [] accepts)))

-- The task of a device that streams delivers "connected", its events in order and "disconnected",
-- as many of these as the pipeline takes. That of a haptics-only device delivers nothing, not even
-- that the device is gone. The task starts once: `start` then hands the receiver over, and a second
-- `start` is an error.
pub reader_lem :
    (dev : RemoteDevice) (evs : List RemoteEvent) (accepts : ℕ)
    → (reader dev evs accepts ≡ (if dev.haptics_only then [] else take accepts (story dev evs)))
      × ((d : Started) × (start (record { dev = dev; event_rx = some evs; task = none }) accepts
            ≡ ok d)
          × (d.task ≡ some (if dev.haptics_only then [] else take accepts (story dev evs)))
          × (start d accepts ≡ err already_started))
unfolding start
reader_lem dev evs accepts = (said, (_, refl, ap some said, refl))
  where
    said : reader dev evs accepts ≡ (if dev.haptics_only then [] else take accepts (story dev evs))
    said = elim (Bool-cases dev.haptics_only) [
      | inl h ↦ silent dev evs accepts h ∙ sym (if_true dev.haptics_only [] _ h)
      | inr h ↦
          streaming dev evs accepts h
          ∙ sym (if_false dev.haptics_only [] (take accepts (story dev evs)) h)
    ]
