-- ===== src/Slime/Client/Interleaved/Paired.antt =====
-- The handshake flag, the reset counter and the events, however the accesses of the tasks interleave.
use everything_imu.Prelude.{
  ℕ, ◌-◌, refl, ap, List, [], ◌∷◌, false, ◌&&◌, ltb, if_cases, Bool-cases, inl, inr, length, take,
  from_be, arith,
}
use everything_imu.Slime.Wire.{Deku}
use everything_imu.Slime.Client.{
  SlimeClient, HandshakeInfo, Sending, fresh, connect, handshake_left, send_handshake_inner,
}
use everything_imu.Slime.Client.Tasks.{
  Call, receives, ticks, handshakes, sends_sensor_info, sends_feature_flags, sends_motion,
  sends_rotation, sends_acceleration, sends_magnetometer, sends_user_action, sends_battery,
  handle_inbound,
}
use everything_imu.Slime.Client.History.{one_if}
use everything_imu.Slime.Client.Handshake.{
  SameLink, SameLink-send_one, SameLink-send_handshake, SameLink-send_motion,
}
use everything_imu.Slime.Client.Interleaved.{
  Receiver, waiting, swapping, counting, announcing, handling, Watchdog, sleeping, comparing,
  clearing, unbundling, bumping, stamping, telling, checking, resending, Tasks, arrive, accept,
  advance_receiver, advance_watchdog, Action, arrives, receiver_goes, watchdog_goes, calls,
  user_call, act, acted, spawned,
}
use everything_imu.Slime.Client.Interleaved.Owed.{
  IsPaired, tasks, flag_of, StillHolds-SameFlag, SameFlag-IsPaired, SameFlag-handle_inbound,
  found_pushed, lost_pushed, swapped,
}

advance_receiver-IsPaired :
    (c : SlimeClient) (r : Receiver) (w : Watchdog)
    → IsPaired (tasks c r w)
    → IsPaired (tasks (advance_receiver c r).0 (advance_receiver c r).1 w)
unfolding advance_receiver
advance_receiver-IsPaired c waiting w h = h
advance_receiver-IsPaired c (swapping payload) w h = swapped c payload w h
advance_receiver-IsPaired c (counting payload) w h = record {
  paired = h.paired;
  counted = h.counted;
  numbered = h.numbered;
  holds = h.holds;
}
advance_receiver-IsPaired c (announcing payload n) w h = found_pushed c payload n w h
advance_receiver-IsPaired c (handling payload) w h =
    let c' = handle_inbound c (from_be (take 4 payload)) payload in
    let same = SameFlag-handle_inbound c (from_be (take 4 payload)) payload in
    SameFlag-IsPaired c c' (handling payload) waiting w w same refl refl refl
      (StillHolds-SameFlag c c' w same h.holds) h

arrive-IsPaired :
    (c : SlimeClient) (datagram : List ℕ) (now : ℕ) (w : Watchdog)
    → IsPaired (tasks c waiting w)
    → IsPaired (tasks (arrive c datagram now).0 (arrive c datagram now).1 w)
unfolding arrive
arrive-IsPaired c datagram now w h =
    if_cases (λ (x : SlimeClient × Receiver). IsPaired (tasks x.0 x.1 w))
      (ltb (length (take 1500 datagram)) 4) (λ t. h)
      (λ f.
        SameFlag-IsPaired c (record c { last_inbound_ms_unix = now }) waiting
          (swapping (take 1500 datagram)) w w (refl, refl, refl) refl refl refl
          (StillHolds-SameFlag c (record c { last_inbound_ms_unix = now }) w (refl, refl, refl)
            h.holds)
          h)

module _ (d : Deku) (info : HandshakeInfo) where
  advance_watchdog-IsPaired :
      (c : SlimeClient) (r : Receiver) (w : Watchdog) (s : Sending)
      → IsPaired (tasks c r w)
      → IsPaired (tasks (advance_watchdog d info c w s).0 r (advance_watchdog d info c w s).1)
  unfolding advance_watchdog
  advance_watchdog-IsPaired c r sleeping s h =
      SameFlag-IsPaired c c r r sleeping (comparing c.last_inbound_ms_unix s.now) (refl, refl, refl)
        refl refl refl tt h
  advance_watchdog-IsPaired c r (comparing last_inbound now) s h =
      elim (Bool-cases
        (c.handshake_confirmed && (ltb 0 last_inbound && ltb 2000 (now - last_inbound)))) [
          | inl t ↦ rw t (
              SameFlag-IsPaired c c r r (comparing last_inbound now) clearing (refl, refl, refl)
                refl refl refl (ground (arith, t)) h)
          | inr f ↦ rw f (
              SameFlag-IsPaired c c r r (comparing last_inbound now) checking (refl, refl, refl)
                refl refl refl tt h)
        ]
  advance_watchdog-IsPaired c r clearing s h = record {
    paired = omega (arith, h.paired, ap one_if h.holds);
    counted = h.counted;
    numbered = h.numbered;
    holds = tt;
  }
  advance_watchdog-IsPaired c r unbundling s h =
      SameFlag-IsPaired c (record c { server_supports_bundle = false }) r r unbundling bumping
        (refl, refl, refl) refl refl refl tt h
  advance_watchdog-IsPaired c r bumping s h = record {
    paired = h.paired;
    counted = omega (arith, h.counted);
    numbered = h.numbered;
    holds = omega (arith, h.counted);
  }
  advance_watchdog-IsPaired c r (stamping n) s h =
      SameFlag-IsPaired c (record c { last_reset_ms_unix = s.now }) r r (stamping n) (telling n)
        (refl, refl, refl) refl refl refl h.holds h
  advance_watchdog-IsPaired c r (telling n) s h = lost_pushed c r n h
  advance_watchdog-IsPaired c r checking s h =
      if_cases (λ w. IsPaired (tasks c r w)) c.handshake_confirmed
        (λ t. SameFlag-IsPaired c c r r checking sleeping (refl, refl, refl) refl refl refl tt h)
        (λ f. SameFlag-IsPaired c c r r checking resending (refl, refl, refl) refl refl refl tt h)
  advance_watchdog-IsPaired c r resending s h =
      let c' = (handshake_left d s.now (send_handshake_inner d c info s.outcome)).0 in
      SameFlag-IsPaired c c' r r resending sleeping
        (flag_of c c' (SameLink-send_handshake d c info s)) refl refl refl tt h

  SameLink-user_call : (c : SlimeClient) (call : Call) → SameLink c (user_call d info c call)
  unfolding user_call
  SameLink-user_call c (receives bytes now) = (refl, refl, refl, refl)
  SameLink-user_call c (ticks now s) = (refl, refl, refl, refl)
  SameLink-user_call c (handshakes s) = SameLink-send_handshake d c info s
  SameLink-user_call c (sends_sensor_info desc s) = SameLink-send_one d c _ s
  SameLink-user_call c (sends_feature_flags f s) = SameLink-send_one d c _ s
  SameLink-user_call c (sends_motion i q v s s') = SameLink-send_motion d c i q v s s'
  SameLink-user_call c (sends_rotation i q s) = SameLink-send_one d c _ s
  SameLink-user_call c (sends_acceleration i v s) = SameLink-send_one d c _ s
  SameLink-user_call c (sends_magnetometer i v s) = SameLink-send_one d c _ s
  SameLink-user_call c (sends_user_action a s) = SameLink-send_one d c _ s
  SameLink-user_call c (sends_battery v l s) = SameLink-send_one d c _ s

  accept-IsPaired :
      (c : SlimeClient) (r : Receiver) (w : Watchdog) (datagram : List ℕ) (now : ℕ)
      → IsPaired (tasks c r w)
      → IsPaired (accept d info (tasks c r w) datagram now r)
  accept-IsPaired c waiting w datagram now h = arrive-IsPaired c datagram now w h
  accept-IsPaired c (swapping p) w datagram now h = h
  accept-IsPaired c (counting p) w datagram now h = h
  accept-IsPaired c (announcing p n) w datagram now h = h
  accept-IsPaired c (handling p) w datagram now h = h

  act-IsPaired : (t : Tasks) (a : Action d info) → IsPaired t → IsPaired (act d info t a)
  unfolding act
  act-IsPaired t (arrives datagram now) h =
      accept-IsPaired t.client t.receiver t.watchdog datagram now h
  act-IsPaired t receiver_goes h = advance_receiver-IsPaired t.client t.receiver t.watchdog h
  act-IsPaired t (watchdog_goes s) h = advance_watchdog-IsPaired t.client t.receiver t.watchdog s h
  act-IsPaired t (calls call) h =
      let c' = user_call d info t.client call in
      let same = flag_of t.client c' (SameLink-user_call t.client call) in
      SameFlag-IsPaired t.client c' t.receiver t.receiver t.watchdog t.watchdog same refl refl refl
        (StillHolds-SameFlag t.client c' t.watchdog same h.holds) h

  acted-IsPaired' :
      (t : Tasks) (actions : List (Action d info)) → IsPaired t → IsPaired (acted d info t actions)
  unfolding acted
  acted-IsPaired' t [] h = h
  acted-IsPaired' t (a ∷ actions) h = acted-IsPaired' (act d info t a) actions (act-IsPaired t a h)

  -- However the accesses of the two tasks and the calls of the users follow one another from `connect`,
  -- whatever arrives and whatever the socket answers: every change of the flag has one event, which
  -- was sent or which the task that made the change is about to send, so that the events that say true
  -- are as many as those that say false, and one more while the flag is set, as soon as no task is
  -- about to send one. The events that say false carry the numbers 1, 2 and so on in their order, and
  -- the counter holds the number of the losses that it was raised for, both modulo 2 ^ 64.
  pub acted-IsPaired :
      (first : Sending) (actions : List (Action d info))
      → IsPaired (acted d info (spawned d info first) actions)
  unfolding spawned connect fresh
  acted-IsPaired first actions = acted-IsPaired' (spawned d info first) actions (
      SameFlag-IsPaired fresh (spawned d info first).client waiting waiting sleeping sleeping
        (flag_of fresh (spawned d info first).client (SameLink-send_handshake d fresh info first))
        refl refl refl tt (record { paired = refl; counted = refl; numbered = tt; holds = tt }))
