-- ===== src/Remote/Hub/Peers.antt =====
-- The cells of the hubs' addresses: which cell a routed device has, and what stands in it.
use everything_imu.Prelude.{
  ℕ, ◌-◌, ◌≡◌, refl, sym, ap, ◌∙◌, List, [], ◌∷◌, none, some, Bool, true, false, not, ◌||◌, ◌==◌,
  ==_refl, ==_iff, if_cases, if_true, length, arith, All, Bool-cases, Option-cases, inl, inr, ltb,
}
use mathlib.Core.Path.{subst}
use everything_imu.Maps.{
  lookup, retain, store, cell, All-map, All-zip, All-retain, cell-append, cell-length, cell-store,
  cell-store_other, lookup-All, some-injective, lookup-cons, lookup-retain,
}
use everything_imu.Remote.Hub.{
  SocketAddr, Key, Route, Hub, touch_cell, touch_hub_peer, change_route, remove_route, any_route,
  same_key, sweep,
}

-- The device has the cell that the table names for its hub.
abbrev pub IsLinkedTo : List (ℕ × ℕ) → Key × Route → Type 0
IsLinkedTo hub_peers (key, r) = lookup key.0 hub_peers ≡ some r.tx.peer

-- The cell holds an address of the hub.
abbrev pub IsLocated : List SocketAddr → ℕ × ℕ → Type 0
IsLocated cells (ip, c) = (port : ℕ) × (cell cells c ≡ some (ip, port))

pub record IsHub (hub : Hub) : Type 0 where
  pub linked : All (IsLinkedTo hub.hub_peers) hub.routes
  pub located : All (IsLocated hub.cells) hub.hub_peers

-- What `touch_hub_peer` leaves.
pub record IsTouched (hub : Hub) (from : SocketAddr) (out : Hub × ℕ) : Type 0 where
  pub ok : IsHub out.0
  pub found : lookup from.0 out.0.hub_peers ≡ some out.1
  pub stored : cell out.0.cells out.1 ≡ some from
  pub routes : out.0.routes ≡ hub.routes

touch_new :
    (hub : Hub) (from : SocketAddr)
    → IsHub hub
    → lookup from.0 hub.hub_peers ≡ none
    → IsTouched hub from (touch_cell none hub from)
touch_new hub from h e = record {
  ok = record {
    linked =
        All-map hub.routes (λ r l. lookup-cons r.0.0 from.0 (length hub.cells) hub.hub_peers e l)
          h.linked;
    located = (
      (from.1, cell-length hub.cells from),
      All-map hub.hub_peers (λ p (port, l). (port, cell-append hub.cells (from ∷ []) p.1 l))
          h.located,
    );
  };
  found = if_true (from.0 == from.0) _ _ (==_refl from.0);
  stored = cell-length hub.cells from;
  routes = refl;
}

-- A store of an address of the same hub.
IsLocated-store :
    (cells : List SocketAddr) (c : ℕ) (from : SocketAddr) (p : ℕ × ℕ)
    → IsLocated cells (from.0, c)
    → IsLocated cells p
    → IsLocated (store c from cells) p
IsLocated-store cells c from (ip, c') (port, e) (port', e') = elim (Bool-cases (c' == c)) [
  | inl t ↦
      let same : c' ≡ c = (==_iff c' c).0 t in
      let hub_ip : from.0 ≡ ip =
        ap (λ (a : SocketAddr). a.0) (some-injective (sym e ∙ ap (cell cells) (sym same) ∙ e')) in
      (
        from.1,
        ap (cell (store c from cells)) same
            ∙ cell-store cells c from e
            ∙ ap (λ i. some (i, from.1)) hub_ip,
      )
  | inr f ↦ (port', cell-store_other cells c c' from (λ s. ground (arith, s, f)) ∙ e')
]

touch_known :
    (hub : Hub) (from : SocketAddr) (c : ℕ)
    → IsHub hub
    → lookup from.0 hub.hub_peers ≡ some c
    → IsTouched hub from (touch_cell (some c) hub from)
touch_known hub from c h e =
    let (port, l) = lookup-All (IsLocated hub.cells) from.0 hub.hub_peers h.located e in
    record {
      ok = record {
        linked = h.linked;
        located =
            All-map hub.hub_peers (λ p k. IsLocated-store hub.cells c from p (port, l) k) h.located;
      };
      found = e;
      stored = cell-store hub.cells c from l;
      routes = refl;
    }

pub touch_hub_peer-IsTouched :
    (hub : Hub) (from : SocketAddr) → IsHub hub → IsTouched hub from (touch_hub_peer hub from)
unfolding touch_hub_peer
touch_hub_peer-IsTouched hub from h = elim (Option-cases (lookup from.0 hub.hub_peers)) [
  | inl e ↦ subst (λ o. IsTouched hub from (touch_cell o hub from)) (sym e) (touch_new hub from h e)
  | inr (c, e) ↦
      subst (λ o. IsTouched hub from (touch_cell o hub from)) (sym e) (touch_known hub from c h e)
]

-- Changing a route keeps its device.
pub All-change :
    (P : Key × Route → Type 0) (key : Key) (f : Route → Route) (routes : List (Key × Route))
    → ((k : Key) (r : Route) → P (k, r) → P (k, f r))
    → All P routes
    → All P (change_route key f routes)
All-change P key f [] keeps h = tt
All-change P key f ((k, r) ∷ routes) keeps (h, hs) = (
  if_cases (λ x. P (k, x)) (same_key key k) (λ e. keeps k r h) (λ e. h),
  All-change P key f routes keeps hs,
)

-- Every route is among the routes.
any_route-All : (routes : List (Key × Route)) → All (λ e. any_route e.0.0 routes ≡ true) routes
any_route-All [] = tt
any_route-All ((key, r) ∷ routes) = (
  ap (λ b. b || any_route key.0 routes) (==_refl key.0),
  All-map routes (λ e h. ap (λ b. (key.0 == e.0.0) || b) h ∙ or_true (key.0 == e.0.0))
      (any_route-All routes),
)
  where
    or_true : (b : Bool) → (b || true) ≡ true
    or_true true = refl
    or_true false = refl

-- The tables after an operation that changes no address.
with_routes :
    (hub : Hub) (routes : List (Key × Route))
    → IsHub hub
    → All (IsLinkedTo hub.hub_peers) routes
    → IsHub (record hub { routes = routes })
with_routes hub routes h l = record { linked = l; located = h.located }

pub remove-IsHub :
    (hub : Hub) (key : Key)
    → IsHub hub
    → IsHub (record hub { routes = remove_route key hub.routes })
remove-IsHub hub key h =
    with_routes hub _ h
      (All-retain (IsLinkedTo hub.hub_peers) (λ e. not (same_key key e.0)) hub.routes h.linked)

pub change-IsHub :
    (hub : Hub) (key : Key) (f : Route → Route)
    → ((r : Route) → (f r).tx.peer ≡ r.tx.peer)
    → IsHub hub
    → IsHub (record hub { routes = change_route key f hub.routes })
change-IsHub hub key f same h = with_routes hub _ h (
    All-change (IsLinkedTo hub.hub_peers) key f hub.routes (λ k r l. l ∙ ap some (sym (same r)))
      h.linked)

pub sweep-IsHub : (hub : Hub) (now : ℕ) → IsHub hub → IsHub (sweep hub now)
unfolding sweep
sweep-IsHub hub now h =
    let routes = retain (λ (e : Key × Route). ltb (now - e.1.last_seen) 15000) hub.routes in
    let linked =
      All-retain (IsLinkedTo hub.hub_peers) (λ e. ltb (now - e.1.last_seen) 15000) hub.routes
        h.linked in
    record {
      linked =
          All-map routes
            (λ e (l, a). lookup-retain (λ p. any_route p.0 routes) e.0.0 hub.hub_peers (λ c. a) ∙ l)
            (All-zip (IsLinkedTo hub.hub_peers) (λ e. any_route e.0.0 routes ≡ true) routes linked
              (any_route-All routes));
      located =
          All-retain (IsLocated hub.cells) (λ p. any_route p.0 routes) hub.hub_peers h.located;
    }
