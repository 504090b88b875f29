-- ===== src/Slime/Client/Handshake.antt =====
-- The handshake flag, the reset counter and the events, over every run whose rounds do not overlap;
-- Interleaved is about those that do.
use everything_imu.Prelude.{
  inl, inr, ℕ, ◌+◌, ◌%◌, ◌^◌, ◌≡◌, refl, sym, ap, ◌∙◌, List, [], ◌∷◌, true, false, ◌&&◌, leb, ltb,
  ◌==◌, length, take, drop, from_be, if_cases, Result, ok, err, arith,
}
use everything_imu.Slime.Wire.{Deku}
use mathlib.Core.Path.{subst}
use everything_imu.Slime.Serverbound.{SbPacket, SlimeQuaternion, Triple, acceleration}
use everything_imu.Slime.Client.{
  SlimeClient, HandshakeEvent, HandshakeInfo, Sending, SendOutcome, fresh, datagram, handshake_left,
  connect, send_packet, send_one, send_handshake_inner, record_sent, next_seq,
  send_bundle_rot_accel, send_rotation_and_accel, send_rotation, send_acceleration, rotation_packet,
  send_encoded, and_then, ClientError,
}
use everything_imu.Slime.Bundle.{encode_bundle}
use everything_imu.Slime.Errors.{SerializeError}
use everything_imu.Slime.Client.Tasks.{
  handle_inbound, confirm, receive, expire, Call, receives, ticks, handshakes, sends_sensor_info,
  sends_feature_flags, sends_motion, sends_rotation, sends_acceleration, sends_magnetometer,
  sends_user_action, sends_battery, step, run,
}
use everything_imu.Slime.Client.History.{
  IsHistory, flag_after, resets_after, history_push, flag_after-push, resets_after-push, IsLinked,
}

-- The two events that the tasks push.
abbrev up : SlimeClient → HandshakeEvent
up c = record { confirmed = true; reset_count = c.handshake_reset_count }

abbrev down : SlimeClient → HandshakeEvent
down c = record { confirmed = false; reset_count = (c.handshake_reset_count + 1) % 2 ^ 64 }

confirm-IsLinked :
    (c : SlimeClient) → IsLinked c → IsLinked (confirm c) × ((confirm c).handshake_confirmed ≡ true)
unfolding confirm
confirm-IsLinked c h = ground (
  arith,
  history_push false 0 c.events (up c) h.history,
  flag_after-push false c.events (up c),
  resets_after-push false 0 c.events (up c),
)

expire-IsLinked : (c : SlimeClient) (now : ℕ) → IsLinked c → IsLinked (expire c now)
unfolding expire
expire-IsLinked c now h = ground (
  arith,
  history_push false 0 c.events (down c) h.history,
  flag_after-push false c.events (down c),
  resets_after-push false 0 c.events (down c),
)

handle_inbound-IsLinked :
    (c : SlimeClient) (tag : ℕ) (payload : List ℕ)
    → IsLinked c
    → c.handshake_confirmed ≡ true
    → IsLinked (handle_inbound c tag payload)
unfolding handle_inbound
handle_inbound-IsLinked c tag payload h on =
    if_cases IsLinked (tag == 22 && leb 13 (length payload))
      (λ _. record { history = h.history; flag = h.flag; resets = h.resets; bundled = inr on })
      (λ _.
        if_cases IsLinked (tag == 10)
          (λ _. record {
            history = h.history;
            flag = h.flag;
            resets = h.resets;
            bundled = h.bundled;
          })
          (λ _. h))

receive-IsLinked :
    (c : SlimeClient) (bytes : List ℕ) (now : ℕ) → IsLinked c → IsLinked (receive c bytes now)
unfolding receive
receive-IsLinked c bytes now h =
    let c' = record c { last_inbound_ms_unix = now } in
    let linked : IsLinked c' = record {
      history = h.history;
      flag = h.flag;
      resets = h.resets;
      bundled = h.bundled;
    } in
    let (confirmed, on) = confirm-IsLinked c' linked in
    let payload = take 1500 bytes in
    if_cases IsLinked (ltb (length payload) 4) (λ _. h)
      (λ _. handle_inbound-IsLinked (confirm c') (from_be (take 4 payload)) payload confirmed on)

-- What no send touches.
abbrev pub SameLink : SlimeClient → SlimeClient → Type 0
SameLink c c' =
    (c.server_supports_bundle ≡ c'.server_supports_bundle)
    × (c.handshake_confirmed ≡ c'.handshake_confirmed)
    × (c.handshake_reset_count ≡ c'.handshake_reset_count)
    × (c.events ≡ c'.events)

SameLink-IsLinked : (c c' : SlimeClient) → SameLink c c' → IsLinked c → IsLinked c'
SameLink-IsLinked c c' (b, f, r, e) h = record {
  history = subst (IsHistory false 0) e h.history;
  flag = sym f ∙ h.flag ∙ ap (flag_after false) e;
  resets = sym r ∙ h.resets ∙ ap (λ es. resets_after false 0 es % 2 ^ 64) e;
  bundled = elim h.bundled [ inl x ↦ inl (sym b ∙ x) | inr y ↦ inr (sym f ∙ y) ];
}

SameLink-send_packet :
    (c : SlimeClient) (bytes : List ℕ) (s : Sending) → SameLink c (send_packet c bytes s).0
unfolding send_packet
SameLink-send_packet c bytes s = ground arith

module _ (d : Deku) where
  pub SameLink-send_one :
      (c : SlimeClient) (packet : SbPacket) (s : Sending) → SameLink c (send_one d c packet s).0
  unfolding send_one next_seq
  SameLink-send_one c packet s = SameLink-send_packet (next_seq c) (datagram d c.seq packet) s

  SameLink-send_handshake_inner :
      (c : SlimeClient) (info : HandshakeInfo) (o : SendOutcome)
      → SameLink c (send_handshake_inner d c info o).0
  unfolding send_handshake_inner
  SameLink-send_handshake_inner c info o = ground arith

  pub SameLink-send_handshake :
      (c : SlimeClient) (info : HandshakeInfo) (s : Sending)
      → SameLink c (handshake_left d s.now (send_handshake_inner d c info s.outcome)).0
  unfolding send_handshake_inner record_sent
  SameLink-send_handshake c info s = ground arith

  SameLink-send_encoded :
      (c : SlimeClient) (r : Result SerializeError (List ℕ)) (s : Sending)
      → SameLink c (send_encoded d (next_seq c) r s).0
  unfolding next_seq
  SameLink-send_encoded c (ok bytes) s = SameLink-send_packet (next_seq c) bytes s
  SameLink-send_encoded c (err e) s = (refl, refl, refl, refl)

  SameLink-and_then :
      (c : SlimeClient) (first : SlimeClient × Result ClientError (Unit {0}))
      (next : SlimeClient → SlimeClient × Result ClientError (Unit {0}))
      → SameLink c first.0
      → ((c' : SlimeClient) → SameLink c' (next c').0)
      → SameLink c (and_then d first next).0
  SameLink-and_then c (c', ok r) next (b, f, r', e) k =
      let (b', f', r'', e') = k c' in (b ∙ b', f ∙ f', r' ∙ r'', e ∙ e')
  SameLink-and_then c (c', err x) next h k = h

  SameLink-send_bundle :
      (c : SlimeClient) (sensor_id : ℕ) (rotation : SlimeQuaternion) (accel : Triple) (s : Sending)
      → SameLink c (send_bundle_rot_accel d c sensor_id rotation accel s).0
  unfolding send_bundle_rot_accel
  SameLink-send_bundle c sensor_id rotation accel s =
      let rot_bytes = datagram d 0 (rotation_packet d sensor_id rotation) in
      let accel_bytes = datagram d 0 (acceleration accel sensor_id) in
      SameLink-send_encoded c
        (encode_bundle c.seq ((17, drop 12 rot_bytes) ∷ (4, drop 12 accel_bytes) ∷ [])) s

  pub SameLink-send_motion :
      (c : SlimeClient) (sensor_id : ℕ) (rotation : SlimeQuaternion) (accel : Triple)
      (s s' : Sending)
      → SameLink c (send_rotation_and_accel d c sensor_id rotation accel s s').0
  unfolding send_rotation_and_accel
  SameLink-send_motion c sensor_id rotation accel s s' =
      if_cases (λ (r : SlimeClient × Result ClientError (Unit {0})). SameLink c r.0)
        c.server_supports_bundle (λ _. SameLink-send_bundle c sensor_id rotation accel s)
        (λ _.
          SameLink-and_then c (send_rotation d c sensor_id rotation s)
            (λ c'. send_acceleration d c' sensor_id accel s')
            (SameLink-send_one c (rotation_packet d sensor_id rotation) s)
            (λ c'. SameLink-send_one c' (acceleration accel sensor_id) s'))

  module _ (info : HandshakeInfo) where
    step-IsLinked : (c : SlimeClient) (call : Call) → IsLinked c → IsLinked (step d info c call)
    unfolding step
    step-IsLinked c (receives bytes now) h = receive-IsLinked c bytes now h
    step-IsLinked c (ticks now s) h =
        let c' = expire c now in
        let h' = expire-IsLinked c now h in
        if_cases IsLinked c'.handshake_confirmed (λ _. h')
          (λ _. SameLink-IsLinked c' _ (SameLink-send_handshake c' info s) h')
    step-IsLinked c (handshakes s) h = SameLink-IsLinked c _ (SameLink-send_handshake c info s) h
    step-IsLinked c (sends_sensor_info desc s) h = SameLink-IsLinked c _ (SameLink-send_one c _ s) h
    step-IsLinked c (sends_feature_flags f s) h = SameLink-IsLinked c _ (SameLink-send_one c _ s) h
    step-IsLinked c (sends_motion i q v s s') h =
        SameLink-IsLinked c _ (SameLink-send_motion c i q v s s') h
    step-IsLinked c (sends_rotation i q s) h = SameLink-IsLinked c _ (SameLink-send_one c _ s) h
    step-IsLinked c (sends_acceleration i v s) h = SameLink-IsLinked c _ (SameLink-send_one c _ s) h
    step-IsLinked c (sends_magnetometer i v s) h = SameLink-IsLinked c _ (SameLink-send_one c _ s) h
    step-IsLinked c (sends_user_action a s) h = SameLink-IsLinked c _ (SameLink-send_one c _ s) h
    step-IsLinked c (sends_battery v l s) h = SameLink-IsLinked c _ (SameLink-send_one c _ s) h

    run-IsLinked' :
        (c : SlimeClient) (calls : List Call) → IsLinked c → IsLinked (run d info c calls)
    unfolding run
    run-IsLinked' c [] h = h
    run-IsLinked' c (call ∷ calls) h =
        run-IsLinked' (step d info c call) calls (step-IsLinked c call h)

    -- In every run from `connect` in which no round of a task overlaps another round or a call,
    -- whatever arrives and whatever the socket answers, the events say true and false in turn, true
    -- first. The flag is what the last event said. Each event carries the number of resets up to it,
    -- which the counter holds too, modulo 2 ^ 64. Bundles are in use only while a handshake is
    -- confirmed.
    pub run-IsLinked :
        (first : Sending) (calls : List Call) → IsLinked (run d info (connect d info first).0 calls)
    unfolding connect fresh
    run-IsLinked first calls = run-IsLinked' (connect d info first).0 calls (
        SameLink-IsLinked fresh _ (SameLink-send_handshake fresh info first)
          (record { history = tt; flag = refl; resets = refl; bundled = inl refl }))
