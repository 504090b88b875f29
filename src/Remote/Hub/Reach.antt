-- ===== src/Remote/Hub/Reach.antt =====
-- Which address a device's rumble goes to.
use everything_imu.Prelude.{
  ◌==◌, ==_iff, ℕ, ◌≡◌, refl, sym, ap, ◌∙◌, List, [], ◌∷◌, ◌++◌, Option, none, some, Bool, true,
  false, not, if_true, if_false, if◌then◌else◌, All, Bool-cases, inl, inr, arith,
}
use mathlib.Core.Path.{subst}
use everything_imu.Remote.Protocol.{
  Announce, RemoteMsg, hello, announce, remove, imu, battery, button, parse,
}
use everything_imu.Maps.{lookup, cell, retain, All-map, All-retain, All-select, some-injective}
use everything_imu.Remote.Hub.{
  SocketAddr, Key, RemoteEvent, imu_event, battery_event, reset_event, new_device, Route, Hub,
  new_hub, TrySend, sent, full, closed, touch_hub_peer, get_route, change_route, any_route, touch,
  after_send, route_to, route_event, announce_to, count_loss, same_key, handle_msg, sweep,
  handle_parsed, receive, Input, datagram, tick, run, rumble_target,
}
use everything_imu.Remote.Hub.Peers.{
  IsHub, IsTouched, touch_hub_peer-IsTouched, remove-IsHub, change-IsHub, sweep-IsHub, All-change,
}

-- Every device with a route from the hub of `peer` has its rumble go to `peer`.
abbrev pub IsReached : SocketAddr → Hub → Type 0
IsReached peer hub =
    All (λ (e : Key × Route). rumble_target hub e.1.tx ≡ some peer)
      (retain (λ e. e.0.0 == peer.0) hub.routes)

-- The same, as a condition on each route.
abbrev Reaches : SocketAddr → Hub → Type 0
Reaches peer hub =
    All (λ (e : Key × Route). e.0.0 ≡ peer.0 → rumble_target hub e.1.tx ≡ some peer) hub.routes

abbrev Both : SocketAddr → Hub → Type 0
Both peer hub = IsHub hub × Reaches peer hub

touched-Both :
    (hub : Hub) (from : SocketAddr) (out : Hub × ℕ) → IsTouched hub from out → Both from out.0
touched-Both hub from out t = (
  t.ok,
  All-map out.0.routes
      (λ e l same.
        ap (cell out.0.cells)
          (some-injective (sym l ∙ ap (λ i. lookup i out.0.hub_peers) same ∙ t.found))
        ∙ t.stored)
      t.ok.linked,
)

after_send-Both :
    (answer : TrySend) (key : Key) (event : RemoteEvent) (peer : SocketAddr) (hub : Hub)
    → Both peer hub
    → Both peer (after_send answer key event hub)
after_send-Both sent key event peer hub (h, r) =
    (record { linked = h.linked; located = h.located }, r)
after_send-Both full key event peer hub h = h
after_send-Both closed key event peer hub (h, r) = (
  remove-IsHub hub key h,
  All-retain (λ (e : Key × Route). e.0.0 ≡ peer.0 → rumble_target hub e.1.tx ≡ some peer)
      (λ e. not (same_key key e.0)) hub.routes r,
)

route_to-Both :
    (r : Route) (hub : Hub) (peer : SocketAddr) (handle : ℕ) (event : RemoteEvent) (now : ℕ)
    (answer : TrySend)
    → IsHub hub
    → Both peer (route_to (some r) hub peer handle event now answer)
route_to-Both r hub peer handle event now answer h =
    let touched = record hub { routes = change_route (peer.0, handle) (touch now) hub.routes } in
    after_send-Both answer (peer.0, handle) event peer (touch_hub_peer touched peer).0
      (touched-Both touched peer _ (
        touch_hub_peer-IsTouched touched peer
          (change-IsHub hub (peer.0, handle) (touch now) (λ r. refl) h)))

touch-Both :
    (hub : Hub) (peer : SocketAddr) (key : Key) (now : ℕ)
    → Both peer hub
    → Both peer (record hub { routes = change_route key (touch now) hub.routes })
touch-Both hub peer key now (h, r) = (
  change-IsHub hub key (touch now) (λ r. refl) h,
  All-change (λ (e : Key × Route). e.0.0 ≡ peer.0 → rumble_target hub e.1.tx ≡ some peer) key
      (touch now) hub.routes (λ k r l. l) r,
)

announce_to-Both :
    (o : Option Route) (hub : Hub) (peer : SocketAddr) (a : Announce) (now : ℕ) (listens : Bool)
    → IsHub hub
    → Both peer (announce_to o hub peer a now listens)
unfolding new_device
announce_to-Both (some r) hub peer a now listens h =
    touch-Both (touch_hub_peer hub peer).0 peer (peer.0, a.handle) now
      (touched-Both hub peer _ (touch_hub_peer-IsTouched hub peer h))
announce_to-Both none hub peer a now true h =
    let t = touch_hub_peer-IsTouched hub peer h in
    let (ok, r) = touched-Both hub peer _ t in
    (record { linked = (t.found, ok.linked); located = ok.located }, ((λ same. t.stored), r))
announce_to-Both none hub peer a now false h =
    touched-Both hub peer _ (touch_hub_peer-IsTouched hub peer h)

abbrev pub is_routed : Option Route → Bool
is_routed none = false
is_routed (some r) = true

-- The messages on which the hub learns the address: all but a removal, an event for a handle without a
-- route, and a greeting from a hub that has no route.
abbrev pub is_heard : Hub → SocketAddr → RemoteMsg → Bool
is_heard hub peer (hello uuid name ts) = any_route peer.0 hub.routes
is_heard hub peer (announce a) = true
is_heard hub peer (remove handle) = false
is_heard hub peer (imu handle seq samples) = is_routed (get_route (peer.0, handle) hub.routes)
is_heard hub peer (battery handle fraction charging) =
    is_routed (get_route (peer.0, handle) hub.routes)
is_heard hub peer (button handle reset) = is_routed (get_route (peer.0, handle) hub.routes)

-- An operation keeps the tables, and moves the targets if the message is heard.
abbrev Moves : Bool → SocketAddr → Hub → Type 0
Moves heard peer hub = IsHub hub × (heard ≡ true → Reaches peer hub)

route_to-Moves :
    (o : Option Route) (hub : Hub) (peer : SocketAddr) (handle : ℕ) (event : RemoteEvent) (now : ℕ)
    (answer : TrySend)
    → IsHub hub
    → Moves (is_routed o) peer (route_to o hub peer handle event now answer)
route_to-Moves none hub peer handle event now answer h = (h, λ e. absurd (ground (arith, e)))
route_to-Moves (some r) hub peer handle event now answer h =
    let (k, m) = route_to-Both r hub peer handle event now answer h in (k, λ e. m)

is_routed-change :
    (key : Key) (f : Route → Route) (routes : List (Key × Route))
    → is_routed (get_route key (change_route key f routes)) ≡ is_routed (get_route key routes)
is_routed-change key f [] = refl
is_routed-change key f ((k, r) ∷ routes) = elim (Bool-cases (same_key key k)) [
  | inl e ↦
      ap is_routed (if_true (same_key key k) (some (if same_key key k then f r else r)) _ e)
      ∙ sym (ap is_routed (if_true (same_key key k) (some r) _ e))
  | inr e ↦
      ap is_routed (if_false (same_key key k) (some (if same_key key k then f r else r)) _ e)
      ∙ is_routed-change key f routes
      ∙ sym (ap is_routed (if_false (same_key key k) (some r) _ e))
]

count_loss-IsHub :
    (hub : Hub) (key : Key) (seq : Option ℕ) (now : ℕ)
    → IsHub hub
    → IsHub (count_loss hub key seq now)
      × (is_routed (get_route key (count_loss hub key seq now).routes)
          ≡ is_routed (get_route key hub.routes))
count_loss-IsHub hub key none now h = (h, refl)
count_loss-IsHub hub key (some seq) now h =
    (change-IsHub hub key _ (λ r. refl) h, is_routed-change key _ hub.routes)

greet-Moves :
    (b : Bool) (hub : Hub) (peer : SocketAddr) (bytes : List ℕ)
    → IsHub hub
    → Moves b peer (
        let hub' = if b then (touch_hub_peer hub peer).0 else hub in
        record hub' { acks = hub'.acks ++ ((peer, bytes) ∷ []) })
greet-Moves true hub peer bytes h =
    let (k, m) = touched-Both hub peer _ (touch_hub_peer-IsTouched hub peer h) in
    (record { linked = k.linked; located = k.located }, λ e. m)
greet-Moves false hub peer bytes h =
    (record { linked = h.linked; located = h.located }, λ e. absurd (ground (arith, e)))

handle_msg-Moves :
    (hub : Hub) (peer : SocketAddr) (msg : RemoteMsg) (now : ℕ) (answer : TrySend) (listens : Bool)
    → IsHub hub
    → Moves (is_heard hub peer msg) peer (handle_msg hub peer msg now answer listens)
unfolding handle_msg route_event
handle_msg-Moves hub peer (hello uuid name ts) now answer listens h =
    greet-Moves (any_route peer.0 hub.routes) hub peer _ h
handle_msg-Moves hub peer (announce a) now answer listens h =
    let (k, m) =
      announce_to-Both (get_route (peer.0, a.handle) hub.routes) hub peer a now listens h in
    (k, λ e. m)
handle_msg-Moves hub peer (remove handle) now answer listens h =
    (remove-IsHub hub (peer.0, handle) h, λ e. absurd (ground (arith, e)))
handle_msg-Moves hub peer (imu handle seq samples) now answer listens h =
    let (k, same) = count_loss-IsHub hub (peer.0, handle) seq now h in
    let (ok, m) =
      route_to-Moves _ (count_loss hub (peer.0, handle) seq now) peer handle (imu_event samples) now
        answer k in
    (ok, λ e. m (same ∙ e))
handle_msg-Moves hub peer (battery handle fraction charging) now answer listens h =
    route_to-Moves _ hub peer handle (battery_event fraction charging) now answer h
handle_msg-Moves hub peer (button handle reset) now answer listens h =
    route_to-Moves _ hub peer handle (reset_event reset) now answer h

handle_parsed-IsHub :
    (o : Option (Option RemoteMsg)) (hub : Hub) (peer : SocketAddr) (now : ℕ) (answer : TrySend)
    (listens : Bool)
    → IsHub hub
    → IsHub (handle_parsed o hub peer now answer listens)
unfolding handle_parsed
handle_parsed-IsHub none hub peer now answer listens h = h
handle_parsed-IsHub (some none) hub peer now answer listens h = h
handle_parsed-IsHub (some (some msg)) hub peer now answer listens h =
    (handle_msg-Moves hub peer msg now answer listens h).0

Reaches-IsReached : (peer : SocketAddr) (hub : Hub) → Reaches peer hub → IsReached peer hub
Reaches-IsReached peer hub h =
    All-select (λ (e : Key × Route). rumble_target hub e.1.tx ≡ some peer) (λ e. e.0.0 == peer.0)
      hub.routes (All-map hub.routes (λ e f t. f ((==_iff e.0.0 peer.0).0 t)) h)

run_from-IsHub : (hub : Hub) (inputs : List Input) → IsHub hub → IsHub (run hub inputs)
unfolding run receive
run_from-IsHub hub [] h = h
run_from-IsHub hub (datagram peer bytes now answer listens ∷ inputs) h =
    run_from-IsHub (receive hub peer bytes now answer listens) inputs
      (handle_parsed-IsHub (parse bytes) hub peer now answer listens h)
run_from-IsHub hub (tick now ∷ inputs) h =
    run_from-IsHub (sweep hub now) inputs (sweep-IsHub hub now h)

-- After every sequence of datagrams and sweeps, whatever `try_send` answers, the device of each route
-- has the cell that the table names for its hub, and every cell that the table names holds an address
-- of that hub.
pub run-IsHub : (inputs : List Input) → IsHub (run new_hub inputs)
unfolding new_hub
run-IsHub inputs = run_from-IsHub new_hub inputs (record { linked = tt; located = tt })

-- After every sequence of datagrams and sweeps, a datagram from `peer` that parses as a message
-- which is heard moves the rumble of every device with a route from that hub to `peer`, the devices
-- of other handles included. Not heard are a removal, an event for a handle without a route, and a
-- greeting of a hub without one.
pub receive-IsReached :
    (inputs : List Input) (peer : SocketAddr) (bytes : List ℕ) (msg : RemoteMsg) (now : ℕ)
    (answer : TrySend) (listens : Bool)
    → parse bytes ≡ some (some msg)
    → is_heard (run new_hub inputs) peer msg ≡ true
    → IsReached peer (receive (run new_hub inputs) peer bytes now answer listens)
unfolding receive handle_parsed
receive-IsReached inputs peer bytes msg now answer listens e heard =
    subst (λ o. IsReached peer (handle_parsed o (run new_hub inputs) peer now answer listens))
      (sym e)
      (Reaches-IsReached peer (handle_msg (run new_hub inputs) peer msg now answer listens) (
        (handle_msg-Moves (run new_hub inputs) peer msg now answer listens (run-IsHub inputs)).1
          heard))
