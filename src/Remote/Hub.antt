-- ===== src/Remote/Hub.antt =====
-- The routing table of crates/device-remote/src/factory.rs, and the devices of device.rs that it makes.
-- The clock, what `try_send` answers and whether the registry still listens are arguments. A shared
-- `Arc<RwLock<SocketAddr>>` is a cell of a store. A time is in milliseconds.
pub mod Loss
pub mod Peers
pub mod Reach
use everything_imu.Prelude.{
  ℕ, zero, suc, ◌+◌, ◌-◌, ◌%◌, ◌^◌, max, List, [], ◌∷◌, ◌++◌, Option, none, some, Bool, true, false,
  not, ◌&&◌, ◌||◌, ltb, leb, ◌==◌, if◌then◌else◌, length,
}
use everything_imu.Traits.Reset.{ResetKind}
use everything_imu.Remote.Protocol.{
  DeviceKind, ImuSample, Announce, RemoteMsg, hello, announce, remove, imu, battery, button, parse,
  encode_hello_ack_echo,
}
use everything_imu.Maps.{lookup, retain, store, cell}

-- An `IpAddr` is a number, a `SocketAddr` that and a port.
abbrev pub SocketAddr : Type 0
SocketAddr = ℕ × ℕ

-- `(IpAddr, u16)`.
abbrev pub Key : Type 0
Key = ℕ × ℕ

pub data RemoteEvent : Type 0 where
  imu_event : List ImuSample → RemoteEvent
  battery_event : (fraction : ℕ) (charging : Bool) → RemoteEvent
  reset_event : ResetKind → RemoteEvent

pub record RemoteDevice : Type 0 where
  pub mac : List ℕ
  pub kind : DeviceKind
  pub name : List ℕ
  pub has_magnetometer : Bool
  pub has_battery : Bool
  pub has_rumble : Bool
  pub native_imu_rate_hz : ℕ
  pub peer : ℕ  -- the cell of the hub's address
  pub handle : ℕ
  pub haptics_only : Bool

unfoldable pub new_device : Announce → ℕ → RemoteDevice
new_device a shared_peer = record {
  mac = a.mac;
  kind = a.kind;
  name = a.name;
  has_magnetometer = a.has_mag;
  has_battery = a.has_battery;
  has_rumble = a.has_rumble;
  native_imu_rate_hz = max a.rate_hz 1;
  peer = shared_peer;
  handle = a.handle;
  haptics_only = a.rate_hz == 0;
}

pub record LossStats : Type 0 where
  pub last_seq : Option ℕ
  pub received : ℕ
  pub lost : ℕ
  pub window_start : Option ℕ

pub record Route : Type 0 where
  pub tx : RemoteDevice  -- the sender, known by the device that has the receiver
  pub last_seen : ℕ
  pub loss : LossStats

pub record Hub : Type 0 where
  pub routes : List (Key × Route)
  pub hub_peers : List (ℕ × ℕ)
  pub cells : List SocketAddr
  pub registered : List RemoteDevice  -- what has gone to `out`
  pub delivered : List (Key × RemoteEvent)  -- what has gone into a route's channel
  pub acks : List (SocketAddr × List ℕ)

unfoldable pub new_hub : Hub
new_hub = record {
  routes = [];
  hub_peers = [];
  cells = [];
  registered = [];
  delivered = [];
  acks = [];
}

pub data TrySend : Type 0 where
  sent full closed : TrySend

abbrev pub new_loss : LossStats
new_loss = record { last_seq = none; received = 0; lost = 0; window_start = none }

-- What a sequence number adds to `lost`: `wrapping_sub`, and gaps of more than one and less than 1000.
abbrev pub gap_loss : Option ℕ → ℕ → ℕ
gap_loss none seq = 0
gap_loss (some prev) seq =
    let gap = (seq + (2 ^ 16 - prev)) % 2 ^ 16 in if ltb 1 gap && ltb gap 1000 then gap - 1 else 0

abbrev pub or_now : Option ℕ → ℕ → ℕ
or_now none now = now
or_now (some t) now = t

-- `LossStats::record`, without the line for the log.
unfoldable pub record_loss : LossStats → ℕ → ℕ → LossStats
record_loss s seq now =
    let start = or_now s.window_start now in
    if leb 10000 (now - start)
    then record { last_seq = some seq; received = 0; lost = 0; window_start = some now }
    else record {
      last_seq = some seq;
      received = s.received + 1;
      lost = s.lost + gap_loss s.last_seq seq;
      window_start = some start;
    }

-- `touch_hub_peer`: the hub, and the cell of the hub's address.
abbrev pub touch_cell : Option ℕ → Hub → SocketAddr → Hub × ℕ
touch_cell (some c) hub from = (record hub { cells = store c from hub.cells }, c)
touch_cell none hub from = (
  record hub {
    hub_peers = (from.0, length hub.cells) ∷ hub.hub_peers;
    cells = hub.cells ++ (from ∷ []);
  },
  length hub.cells,
)

unfoldable pub touch_hub_peer : Hub → SocketAddr → Hub × ℕ
touch_hub_peer hub from = touch_cell (lookup from.0 hub.hub_peers) hub from

abbrev pub same_key : Key → Key → Bool
same_key (ip, handle) (ip', handle') = ip == ip' && handle == handle'

abbrev pub get_route : Key → List (Key × Route) → Option Route
get_route key [] = none
get_route key ((key', r) ∷ routes) =
    let rest = get_route key routes in if same_key key key' then some r else rest

-- `get_mut`, with what is done to the route.
abbrev pub change_route : Key → (Route → Route) → List (Key × Route) → List (Key × Route)
change_route key f [] = []
change_route key f ((key', r) ∷ routes) =
    (key', if same_key key key' then f r else r) ∷ change_route key f routes

abbrev pub remove_route : Key → List (Key × Route) → List (Key × Route)
remove_route key routes = retain (λ e. not (same_key key e.0)) routes

-- `routes.keys().any(|(rip, _)| *rip == ip)`.
abbrev pub any_route : ℕ → List (Key × Route) → Bool
any_route ip [] = false
any_route ip ((key, r) ∷ routes) = key.0 == ip || any_route ip routes

abbrev touch : ℕ → Route → Route
touch now r = record r { last_seen = now }

-- The answer of `try_send`.
abbrev pub after_send : TrySend → Key → RemoteEvent → Hub → Hub
after_send sent key event hub = record hub { delivered = hub.delivered ++ ((key, event) ∷ []) }
after_send full key event hub = hub
after_send closed key event hub = record hub { routes = remove_route key hub.routes }

abbrev route_to : Option Route → Hub → SocketAddr → ℕ → RemoteEvent → ℕ → TrySend → Hub
route_to none hub peer handle event now answer = hub
route_to (some r) hub peer handle event now answer =
    let touched = record hub { routes = change_route (peer.0, handle) (touch now) hub.routes } in
    after_send answer (peer.0, handle) event (touch_hub_peer touched peer).0

unfoldable pub route_event : Hub → SocketAddr → ℕ → RemoteEvent → ℕ → TrySend → Hub
unfolding touch_hub_peer
route_event hub peer handle event now answer =
    route_to (get_route (peer.0, handle) hub.routes) hub peer handle event now answer

-- The arm for an announcement, on what `get_mut` finds; `listens` says that `out` is not closed.
abbrev announce_to : Option Route → Hub → SocketAddr → Announce → ℕ → Bool → Hub
announce_to (some r) hub peer a now listens =
    let hub' = (touch_hub_peer hub peer).0 in
    record hub' { routes = change_route (peer.0, a.handle) (touch now) hub'.routes }
announce_to none hub peer a now listens =
    let (hub', shared_peer) = touch_hub_peer hub peer in
    let dev = new_device a shared_peer in
    if listens
    then record hub' {
      registered = hub'.registered ++ (dev ∷ []);
      routes =
          ((peer.0, a.handle), record { tx = dev; last_seen = now; loss = new_loss }) ∷ hub'.routes;
    }
    else hub'

abbrev pub count_loss : Hub → Key → Option ℕ → ℕ → Hub
count_loss hub key none now = hub
count_loss hub key (some seq) now = record hub {
  routes = change_route key (λ r. record r { loss = record_loss r.loss seq now }) hub.routes;
}

unfoldable pub handle_msg : Hub → SocketAddr → RemoteMsg → ℕ → TrySend → Bool → Hub
unfolding touch_hub_peer route_event new_device
handle_msg hub peer (hello uuid name ts) now answer listens =
    let hub' = if any_route peer.0 hub.routes then (touch_hub_peer hub peer).0 else hub in
    record hub' { acks = hub'.acks ++ ((peer, encode_hello_ack_echo ts) ∷ []) }
handle_msg hub peer (announce a) now answer listens =
    announce_to (get_route (peer.0, a.handle) hub.routes) hub peer a now listens
handle_msg hub peer (remove handle) now answer listens = record hub {
  routes = remove_route (peer.0, handle) hub.routes;
}
handle_msg hub peer (imu handle seq samples) now answer listens =
    route_event (count_loss hub (peer.0, handle) seq now) peer handle (imu_event samples) now answer
handle_msg hub peer (battery handle fraction charging) now answer listens =
    route_event hub peer handle (battery_event fraction charging) now answer
handle_msg hub peer (button handle reset) now answer listens =
    route_event hub peer handle (reset_event reset) now answer

-- The arm of the sweep timer: routes that are quiet for 15 seconds go, then hubs without a route.
unfoldable pub sweep : Hub → ℕ → Hub
sweep hub now =
    let routes = retain (λ (e : Key × Route). ltb (now - e.1.last_seen) 15000) hub.routes in
    record hub { routes = routes; hub_peers = retain (λ e. any_route e.0 routes) hub.hub_peers }

-- What `parse` gives; a datagram that does not parse is dropped.
unfoldable pub handle_parsed :
    Option (Option RemoteMsg) → Hub → SocketAddr → ℕ → TrySend → Bool → Hub
unfolding handle_msg
handle_parsed none hub peer now answer listens = hub
handle_parsed (some none) hub peer now answer listens = hub
handle_parsed (some (some msg)) hub peer now answer listens =
    handle_msg hub peer msg now answer listens

-- The arm of the socket.
unfoldable pub receive : Hub → SocketAddr → List ℕ → ℕ → TrySend → Bool → Hub
unfolding handle_parsed
receive hub peer bytes now answer listens = handle_parsed (parse bytes) hub peer now answer listens

pub data Input : Type 0 where
  datagram : (peer : SocketAddr) (bytes : List ℕ) (now : ℕ) → TrySend → (listens : Bool) → Input
  tick : (now : ℕ) → Input

-- The loop of `enumerate_loop`, on what the `select!` gives it.
unfoldable pub run : Hub → List Input → Hub
unfolding receive sweep
run hub [] = hub
run hub (datagram peer bytes now answer listens ∷ inputs) =
    run (receive hub peer bytes now answer listens) inputs
run hub (tick now ∷ inputs) = run (sweep hub now) inputs

-- Where `set_rumble` sends its packet.
abbrev pub rumble_target : Hub → RemoteDevice → Option SocketAddr
rumble_target hub dev = cell hub.cells dev.peer
