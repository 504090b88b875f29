-- ===== src/Slime/Client/Interleaved.antt =====
-- The two background tasks of crates/slime-tracker/src/client.rs, as they run on several threads: an
-- action is one access of one task to the atomics, the event channel or the socket, and the actions of
-- the tasks follow one another in any order, with the calls of the client's users between them. A call,
-- and the re-send of a handshake, touch none of what is followed here, and are one action each.
pub mod Alone
pub mod Counts
pub mod Owed
pub mod Paired
pub mod Races
use everything_imu.Prelude.{
  ℕ, ◌-◌, List, [], ◌∷◌, ◌++◌, Bool, true, false, ◌&&◌, ltb, if◌then◌else◌, length, take, from_be,
}
use everything_imu.Slime.Wire.{Deku}
use everything_imu.Slime.Sensors.{ActionType}
use everything_imu.Slime.Serverbound.{SlimeQuaternion, Triple}
use everything_imu.Slime.Client.{
  SlimeClient, HandshakeInfo, HandshakeEvent, Sending, bump, connect, handshake_left,
  send_handshake_inner, record_sent,
}
use everything_imu.Slime.Client.Tasks.{Call, receives, ticks, handle_inbound, step}

-- Where `receive_loop` stands, with the payload of the datagram in hand.
pub data Receiver : Type 0 where
  -- in `recv`
  waiting : Receiver
  -- before `swap(true)`
  swapping : (payload : List ℕ) → Receiver
  -- before the load of the counter for an event
  counting : (payload : List ℕ) → Receiver
  -- before the send of the event
  announcing : (payload : List ℕ) (reset_count : ℕ) → Receiver
  -- before `handle_inbound`
  handling : (payload : List ℕ) → Receiver

-- Where `handshake_watchdog` stands, with what it has read.
pub data Watchdog : Type 0 where
  -- before the load of the time of the last packet
  sleeping : Watchdog
  -- before the load of the flag, with that time and the clock's
  comparing : (last_inbound now : ℕ) → Watchdog
  -- before the stores of the flag, of the bundle support, of the counter and of the time
  clearing : Watchdog
  unbundling : Watchdog
  bumping : Watchdog
  stamping : (new_count : ℕ) → Watchdog
  -- before the send of the event
  telling : (new_count : ℕ) → Watchdog
  -- before the second load of the flag, and before the re-send
  checking : Watchdog
  resending : Watchdog

pub record Tasks : Type 0 where
  pub client : SlimeClient
  pub receiver : Receiver
  pub watchdog : Watchdog

-- `recv` returns a datagram at `now`, which is then the time of the last packet.
unfoldable pub arrive : SlimeClient → List ℕ → ℕ → SlimeClient × Receiver
arrive c datagram now =
    let payload = take 1500 datagram in
    if ltb (length payload) 4
    then (c, waiting)
    else (record c { last_inbound_ms_unix = now }, swapping payload)

abbrev pub push_event : SlimeClient → Bool → ℕ → SlimeClient
push_event c confirmed reset_count = record c {
  events = c.events ++ ((record { confirmed = confirmed; reset_count = reset_count }) ∷ []);
}

-- The next access of `receive_loop`.
unfoldable pub advance_receiver : SlimeClient → Receiver → SlimeClient × Receiver
unfolding handle_inbound
advance_receiver c waiting = (c, waiting)
advance_receiver c (swapping payload) = (
  record c { handshake_confirmed = true },
  if c.handshake_confirmed then handling payload else counting payload,
)
advance_receiver c (counting payload) = (c, announcing payload c.handshake_reset_count)
advance_receiver c (announcing payload reset_count) =
    (push_event c true reset_count, handling payload)
advance_receiver c (handling payload) =
    (handle_inbound c (from_be (take 4 payload)) payload, waiting)

module _ (d : Deku) (info : HandshakeInfo) where
  -- The next access of `handshake_watchdog`; the clock and the socket answer with `s`.
  unfoldable pub advance_watchdog : SlimeClient → Watchdog → Sending → SlimeClient × Watchdog
  unfolding send_handshake_inner record_sent
  advance_watchdog c sleeping s = (c, comparing c.last_inbound_ms_unix s.now)
  advance_watchdog c (comparing last_inbound now) s = (
    c,
    if c.handshake_confirmed && (ltb 0 last_inbound && ltb 2000 (now - last_inbound))
        then clearing
        else checking,
  )
  advance_watchdog c clearing s = (record c { handshake_confirmed = false }, unbundling)
  advance_watchdog c unbundling s = (record c { server_supports_bundle = false }, bumping)
  advance_watchdog c bumping s = (
    record c { handshake_reset_count = bump c.handshake_reset_count },
    stamping (bump c.handshake_reset_count),
  )
  advance_watchdog c (stamping new_count) s =
      (record c { last_reset_ms_unix = s.now }, telling new_count)
  advance_watchdog c (telling new_count) s = (push_event c false new_count, checking)
  advance_watchdog c checking s = (c, if c.handshake_confirmed then sleeping else resending)
  advance_watchdog c resending s =
      ((handshake_left d s.now (send_handshake_inner d c info s.outcome)).0, sleeping)

  -- A datagram for a waiting `recv`, a step of a task, or a call of a user.
  pub data Action : Type 0 where
    arrives : (datagram : List ℕ) (now : ℕ) → Action
    receiver_goes : Action
    watchdog_goes : Sending → Action
    calls : Call → Action

  -- A call of a user; the rounds of the tasks are no calls.
  unfoldable pub user_call : SlimeClient → Call → SlimeClient
  unfolding step
  user_call c (receives datagram now) = c
  user_call c (ticks now s) = c
  user_call c call = step d info c call

  -- A datagram waits in the socket until the receiver has come back to `recv`.
  abbrev pub accept : Tasks → List ℕ → ℕ → Receiver → Tasks
  accept t datagram now waiting =
      let (c, r) = arrive t.client datagram now in record t { client = c; receiver = r }
  accept t datagram now r = t

  unfoldable pub act : Tasks → Action → Tasks
  unfolding arrive advance_receiver advance_watchdog user_call
  act t (arrives datagram now) = accept t datagram now t.receiver
  act t receiver_goes =
      let (c, r) = advance_receiver t.client t.receiver in record t { client = c; receiver = r }
  act t (watchdog_goes s) =
      let (c, w) = advance_watchdog t.client t.watchdog s in record t { client = c; watchdog = w }
  act t (calls call) = record t { client = user_call t.client call }

  unfoldable pub acted : Tasks → List Action → Tasks
  unfolding act
  acted t [] = t
  acted t (a ∷ actions) = acted (act t a) actions

  -- The tasks when `connect` has spawned them.
  unfoldable pub spawned : Sending → Tasks
  unfolding connect
  spawned first = record {
    client = (connect d info first).0;
    receiver = waiting;
    watchdog = sleeping;
  }
