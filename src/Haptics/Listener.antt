-- ===== src/Haptics/Listener.antt =====
-- crates/osc-haptics/src/listener.rs. A time is in nanoseconds. Readings of the clock and what the
-- decoder of OSC makes of a datagram are arguments; a message stands with the two readings that are
-- made while it is handled. What goes to the sink is a list of commands, the latest first. A hash map
-- is a list, in the order of its iteration.
pub mod Stable
pub mod Motors
pub mod Silence
pub mod Ticks
pub mod Quiet
use everything_imu.Prelude.{
  ℕ, suc, ◌+◌, ◌-◌, ◌*◌, min, max, List, [], ◌∷◌, ◌++◌, Option, none, some, Bool, true, false, not,
  ◌&&◌, ◌||◌, ltb, leb, if◌then◌else◌, length,
}
use everything_imu.Slices.{same}
use everything_imu.Maps.{lookup, retain, without, insert}
use everything_imu.Haptics.Mapping.{
  Floats, f_zero, intensity_epsilon, HapticRule, HapticAction, OscType, osc_value_to_f32, resolve,
}
use everything_imu.Haptics.Sniffer.{Sniffer, ingest}

-- 15 ms, 2 s, 250 ms and 1 ms.
abbrev pub min_send_gap : ℕ
min_send_gap = 15000000

abbrev pub watchdog_idle : ℕ
watchdog_idle = 2000000000

abbrev pub max_tick : ℕ
max_tick = 250000000

abbrev pub min_tick : ℕ
min_tick = 1000000

abbrev pub max_seen_addrs : ℕ
max_seen_addrs = 4096

-- When a command went to a device, and its intensity.
abbrev pub Sent : Type 0
Sent = ℕ × ℕ

-- `LoopState`, with what it has caused: the commands to the sink, the addresses that were offered to
-- the discovery, and the sniffer.
pub record LoopState : Type 0 where
  pub last_sent : List (ℕ × Sent)
  pub pulse_until : List (ℕ × ℕ)
  pub seen_addrs : List (List ℕ)
  pub last_packet : ℕ
  pub idle_silenced : Bool
  pub sink : List (ℕ × ℕ)
  pub discovered : List (List ℕ)
  pub sniffer : Option Sniffer

-- `LoopState::new`, beside what is outside of it.
unfoldable pub new_state : ℕ → List (ℕ × ℕ) → Option Sniffer → LoopState
new_state now sink sniffer = record {
  last_sent = [];
  pulse_until = [];
  seen_addrs = [];
  last_packet = now;
  idle_silenced = false;
  sink = sink;
  discovered = [];
  sniffer = sniffer;
}

abbrev pub soonest : ℕ → List (ℕ × ℕ) → ℕ → ℕ
soonest now [] wake = wake
soonest now ((mac, end) ∷ ends) wake = soonest now ends (min wake (end - now))

unfoldable pub next_wake : LoopState → ℕ → ℕ
next_wake s now =
    let wake = soonest now s.pulse_until max_tick in
    let watched =
      if s.idle_silenced then wake else min wake (s.last_packet + watchdog_idle - now) in
    max watched min_tick

abbrev pub has_seen : List ℕ → List (List ℕ) → Bool
has_seen a [] = false
has_seen a (b ∷ bs) = same b a || has_seen a bs

-- The discovery, for a new address and up to the limit.
unfoldable pub discover : Bool → List ℕ → LoopState → LoopState
discover false addr s = s
discover true addr s =
    if ltb (length s.seen_addrs) max_seen_addrs && not (has_seen addr s.seen_addrs)
    then record s { seen_addrs = addr ∷ s.seen_addrs; discovered = s.discovered ++ addr ∷ [] }
    else s

module _ (fl : Floats) where
  -- The filters of `send`, on what was last sent to the device.
  abbrev pub is_filtered : Option Sent → ℕ → ℕ → Bool
  is_filtered none intensity now = false
  is_filtered (some (sent_at, prev)) intensity now =
      (ltb (now - sent_at) min_send_gap || fl.lt (fl.abs (fl.sub intensity prev)) intensity_epsilon)
      && fl.lt f_zero intensity

  abbrev pub written : ℕ → ℕ → ℕ → LoopState → LoopState
  written mac intensity now s = record s {
    last_sent = insert mac (now, intensity) s.last_sent;
    sink = (mac, intensity) ∷ s.sink;
  }

  unfoldable pub send : LoopState → ℕ → ℕ → Bool → ℕ → LoopState
  send s mac intensity force now =
      if not force && is_filtered (lookup mac s.last_sent) intensity now
      then s
      else written mac intensity now s

  -- The body of the loops of `on_tick` and `silence_all`: no pulse, and silence.
  abbrev pub quench : ℕ → List ℕ → LoopState → LoopState
  quench now [] s = s
  quench now (mac ∷ macs) s =
      quench now macs
        (send (record s { pulse_until = without mac s.pulse_until }) mac f_zero true now)

  abbrev pub expired : ℕ → List (ℕ × ℕ) → List ℕ
  expired now [] = []
  expired now ((mac, end) ∷ ends) =
      let rest = expired now ends in if leb end now then mac ∷ rest else rest

  abbrev pub active : List (ℕ × Sent) → List ℕ
  active [] = []
  active ((mac, (sent_at, v)) ∷ es) =
      let rest = active es in if fl.lt f_zero v then mac ∷ rest else rest

  -- Its own reading of the clock is `now`.
  unfoldable pub silence_all : ℕ → LoopState → LoopState
  silence_all now s = quench now (active s.last_sent) s

  -- `later` is the reading that `silence_all` makes.
  unfoldable pub on_tick : ℕ → ℕ → LoopState → LoopState
  unfolding silence_all
  on_tick now later s =
      let s' = quench now (expired now s.pulse_until) s in
      if not s'.idle_silenced && leb watchdog_idle (now - s'.last_packet)
      then record (silence_all later s') { idle_silenced = true }
      else s'

  -- `apply_action`, on the action's pulse.
  abbrev pub apply_pulse : Option ℕ → ℕ → ℕ → ℕ → LoopState → LoopState
  apply_pulse (some ms) mac intensity now s =
      send (record s { pulse_until = insert mac (now + ms * 1000000) s.pulse_until }) mac intensity
        true now
  apply_pulse none mac intensity now s =
      send (record s { pulse_until = without mac s.pulse_until }) mac intensity false now

  unfoldable pub apply_action : HapticAction → ℕ → LoopState → LoopState
  apply_action a now s = apply_pulse a.pulse_ms a.device_mac a.intensity now s

  abbrev pub apply_actions : List HapticAction → ℕ → LoopState → LoopState
  apply_actions [] now s = s
  apply_actions (a ∷ more) now s = apply_actions more now (apply_action a now s)

  abbrev sniff : Option Sniffer → List ℕ → ℕ → ℕ → Option Sniffer
  sniff none addr value seen_at = none
  sniff (some sn) addr value seen_at = some (ingest fl sn addr value seen_at)

  -- The value of the first argument, if it has one.
  abbrev pub first_value : List OscType → Option ℕ
  first_value [] = none
  first_value (arg ∷ more) = osc_value_to_f32 fl arg

  abbrev pub on_value : List HapticRule → List ℕ → Option ℕ → ℕ → ℕ → LoopState → LoopState
  on_value rules addr none seen_at now s = s
  on_value rules addr (some value) seen_at now s =
      apply_actions (resolve fl rules addr value) now
        (record s { sniffer = sniff s.sniffer addr value seen_at })

mutual
  pub data OscPacket : Type 0 where
    message : (addr : List ℕ) → List OscType → (seen_at now : ℕ) → OscPacket
    bundle : OscPackets → OscPacket

  pub data OscPackets : Type 0 where
    nil : OscPackets
    cons : OscPacket → OscPackets → OscPackets

module _ (fl : Floats) (rules : List HapticRule) (discovery : Bool) where
  unfoldable pub handle_message : List ℕ → List OscType → ℕ → ℕ → LoopState → LoopState
  unfolding apply_action discover
  handle_message addr args seen_at now s =
      on_value fl rules addr (first_value fl args) seen_at now (discover discovery addr s)

  unfoldable mutual
    pub handle_packet : OscPacket → LoopState → LoopState
    handle_packet (message addr args seen_at now) s = handle_message addr args seen_at now s
    handle_packet (bundle content) s = handle_content content s

    pub handle_content : OscPackets → LoopState → LoopState
    handle_content nil s = s
    handle_content (cons p ps) s = handle_content ps (handle_packet p s)

-- What the `select!` of `serve` gives.
pub data Event : Type 0 where
  config_dropped : (now : ℕ) → Event
  config_changed : Event
  datagram : (now : ℕ) → Option OscPacket → Event
  recv_error : Event
  timeout : (now later : ℕ) → Event

pub data ServeExit : Type 0 where
  shutdown rebind : ServeExit

module _ (fl : Floats) (rules : List HapticRule) (discovery : Bool) where
  unfoldable pub on_datagram : ℕ → Option OscPacket → LoopState → LoopState
  on_datagram now none s = record s { last_packet = now; idle_silenced = false }
  on_datagram now (some packet) s =
      handle_packet fl rules discovery packet
        (record s { last_packet = now; idle_silenced = false })

  -- The loop of `serve`; without an exit it is still waiting.
  unfoldable pub serve : List Event → LoopState → LoopState × Option ServeExit
  unfolding on_datagram
  serve [] s = (s, none)
  serve (config_dropped now ∷ es) s = (silence_all fl now s, some shutdown)
  serve (config_changed ∷ es) s = (s, some rebind)
  serve (datagram now packet ∷ es) s = serve es (on_datagram now packet s)
  serve (recv_error ∷ es) s = serve es s
  serve (timeout now later ∷ es) s = serve es (on_tick fl now later s)

-- One round of the loop of `run_bridge`: the configuration, whether the socket could be bound, the
-- time, and what happens to the session.
pub record Round : Type 0 where
  pub enabled : Bool
  pub bound : Bool
  pub rules : List HapticRule
  pub now : ℕ
  pub events : List Event

module _ (fl : Floats) (discovery : Bool) where
  -- Only a change of the configuration leads to the next round.
  abbrev after_serve :
      LoopState × Option ServeExit → (List (ℕ × ℕ) → Option Sniffer → List (ℕ × ℕ)) → List (ℕ × ℕ)
  after_serve (s, none) next = s.sink
  after_serve (s, some shutdown) next = s.sink
  after_serve (s, some rebind) next = next s.sink s.sniffer

  -- The commands that have gone to the sink.
  unfoldable pub run_bridge : List Round → List (ℕ × ℕ) → Option Sniffer → List (ℕ × ℕ)
  unfolding serve
  run_bridge [] sink sniffer = sink
  run_bridge (r ∷ rs) sink sniffer =
      let next = run_bridge rs in
      let session = serve fl r.rules discovery r.events (new_state r.now sink sniffer) in
      if r.enabled && r.bound then after_serve session next else next sink sniffer
