-- ===== src/Slime/Client/Sequence.antt =====
-- The sequence numbers of the datagrams that the client builds, over every run.
use everything_imu.Prelude.{
  ℕ, ◌+◌, ◌%◌, ◌^◌, ◌<◌, ◌≡◌, refl, sym, ap, ◌∙◌, List, [], ◌∷◌, ◌++◌, ◌&&◌, leb, ltb, ◌==◌, length,
  take, to_be, from_be, if_cases, Result, ok, err, arith, drop-to_be, take-to_be, from_be-to_be,
}
use everything_imu.Slime.Wire.{Deku}
use everything_imu.Slime.Errors.{SerializeError}
use everything_imu.Slime.Packet.{new}
use everything_imu.Slime.Packet.Laws.{to_bytes-seq}
use everything_imu.Slime.Bundle.Frames.{frames}
use everything_imu.Slime.Serverbound.{SbPacket, SlimeQuaternion, Triple, acceleration}
use everything_imu.Slime.Serverbound.Datagrams.{sb_packet_body, sb_id-lt}
use everything_imu.Slime.Client.{
  SlimeClient, HandshakeInfo, Sending, ClientError, datagram, next_seq, record_sent,
  rotation_packet, fresh, handshake_left, connect, send_packet, send_one, send_handshake_inner,
  send_rotation, send_acceleration, and_then, send_encoded, send_bundle_rot_accel,
  send_rotation_and_accel,
}
use everything_imu.Slime.Client.Motion.{IsMotion, motion_inners, bundled, bundle_sent}
use everything_imu.Slime.Client.Watchdog.{handshake_packet}
use everything_imu.Slime.Client.Tasks.{
  handle_inbound, confirm, receive, expire, Call, receives, ticks, handshakes, sends_sensor_info,
  sends_feature_flags, sends_motion, sends_rotation, sends_acceleration, sends_magnetometer,
  sends_user_action, sends_battery, step, run,
}
use everything_imu.Slime.Client.Numbering.{
  seq_of, IsCall, AreCalls, push_echo, owned-push_echo, IsSequenced, keep, advance,
}

confirm-IsSequenced : (c : SlimeClient) → IsSequenced c → IsSequenced (confirm c)
unfolding confirm
confirm-IsSequenced c h = keep c (confirm c) (ground arith) (ground arith) h

expire-IsSequenced : (c : SlimeClient) (now : ℕ) → IsSequenced c → IsSequenced (expire c now)
unfolding expire
expire-IsSequenced c now h = keep c (expire c now) (ground arith) (ground arith) h

handle_inbound-IsSequenced :
    (c : SlimeClient) (tag : ℕ) (payload : List ℕ)
    → IsSequenced c
    → IsSequenced (handle_inbound c tag payload)
unfolding handle_inbound
handle_inbound-IsSequenced c tag payload h =
    if_cases IsSequenced (tag == 22 && leb 13 (length payload)) (λ _. keep c _ refl refl h)
      (λ _.
        if_cases IsSequenced (tag == 10)
          (λ _. record {
            numbered = push_echo 0 c.outgoing payload h.numbered;
            next = h.next ∙ ap (λ (n : ℕ). n % 2 ^ 64) (sym (owned-push_echo c.outgoing payload));
          })
          (λ _. h))

sent_packet :
    (c : SlimeClient) (bytes : List ℕ) (s : Sending)
    → seq_of bytes ≡ c.seq
    → IsSequenced c
    → IsSequenced (send_packet (next_seq c) bytes s).0
unfolding send_packet next_seq
sent_packet c bytes s e h =
    advance c (send_packet (next_seq c) bytes s).0 bytes e (ground arith) (ground arith) h

module _ (d : Deku) where
  datagram-seq : (n : ℕ) (p : SbPacket) → n < 2 ^ 64 → seq_of (datagram d n p) ≡ n
  unfolding datagram new
  datagram-seq n p h =
      to_bytes-seq d (sb_packet_body d) (new d (sb_packet_body d) n p) (sb_id-lt p) h

  counter-lt : (c : SlimeClient) → IsSequenced c → c.seq < 2 ^ 64
  counter-lt c h = omega (arith, h.next)

  sent_one :
      (c : SlimeClient) (p : SbPacket) (s : Sending)
      → IsSequenced c
      → IsSequenced (send_one d c p s).0
  unfolding send_one
  sent_one c p s h = sent_packet c (datagram d c.seq p) s (datagram-seq c.seq p (counter-lt c h)) h

  sent_handshake :
      (c : SlimeClient) (info : HandshakeInfo) (s : Sending)
      → IsSequenced c
      → IsSequenced (handshake_left d s.now (send_handshake_inner d c info s.outcome)).0
  unfolding send_handshake_inner next_seq record_sent
  sent_handshake c info s h =
      advance c (handshake_left d s.now (send_handshake_inner d c info s.outcome)).0
        (datagram d c.seq (handshake_packet d info))
        (datagram-seq c.seq (handshake_packet d info) (counter-lt c h)) (ground arith)
        (ground arith) h

  sent_both :
      (first : SlimeClient × Result ClientError (Unit {0}))
      (next : SlimeClient → SlimeClient × Result ClientError (Unit {0}))
      → IsSequenced first.0
      → ((c' : SlimeClient) → IsSequenced c' → IsSequenced (next c').0)
      → IsSequenced (and_then d first next).0
  sent_both (c, ok r) next h k = k c h
  sent_both (c, err e) next h k = h

  bundled-seq :
      (c : SlimeClient) (sensor_id : ℕ) (rotation : SlimeQuaternion) (accel : Triple)
      → c.seq < 2 ^ 64
      → seq_of (bundled d c sensor_id rotation accel) ≡ c.seq
  bundled-seq c sensor_id rotation accel h =
      let rest = to_be 8 c.seq ++ frames (motion_inners d sensor_id rotation accel) in
      rw (
        drop-to_be 4 100 rest,
        take-to_be 8 c.seq (frames (motion_inners d sensor_id rotation accel)),
        from_be-to_be 8 c.seq h,
      )

  encoded-seq :
      (c : SlimeClient) (r : Result SerializeError (List ℕ)) (s : Sending)
      → (send_encoded d (next_seq c) r s).0.seq ≡ (c.seq + 1) % 2 ^ 64
  unfolding next_seq send_packet
  encoded-seq c (ok bytes) s = ground arith
  encoded-seq c (err e) s = refl

  bundle-seq :
      (c : SlimeClient) (sensor_id : ℕ) (rotation : SlimeQuaternion) (accel : Triple) (s : Sending)
      → (send_bundle_rot_accel d c sensor_id rotation accel s).0.seq ≡ (c.seq + 1) % 2 ^ 64
  unfolding send_bundle_rot_accel
  bundle-seq c sensor_id rotation accel s = encoded-seq c _ s

  sent_motion :
      (c : SlimeClient) (sensor_id : ℕ) (rotation : SlimeQuaternion) (accel : Triple)
      (s s' : Sending)
      → IsMotion sensor_id rotation accel
      → IsSequenced c
      → IsSequenced (send_rotation_and_accel d c sensor_id rotation accel s s').0
  unfolding send_rotation_and_accel
  sent_motion c sensor_id rotation accel s s' m h =
      if_cases (λ (r : SlimeClient × Result ClientError (Unit {0})). IsSequenced r.0)
        c.server_supports_bundle
        (λ _.
          advance c (send_bundle_rot_accel d c sensor_id rotation accel s).0
            (bundled d c sensor_id rotation accel)
            (bundled-seq c sensor_id rotation accel (counter-lt c h))
            (bundle-seq c sensor_id rotation accel s) (bundle_sent d c sensor_id rotation accel s m)
            h)
        (λ _.
          sent_both (send_rotation d c sensor_id rotation s)
            (λ c'. send_acceleration d c' sensor_id accel s')
            (sent_one c (rotation_packet d sensor_id rotation) s h)
            (λ c' h'. sent_one c' (acceleration accel sensor_id) s' h'))

  module _ (info : HandshakeInfo) where
    receive-IsSequenced :
        (c : SlimeClient) (bytes : List ℕ) (now : ℕ)
        → IsSequenced c
        → IsSequenced (receive c bytes now)
    unfolding receive
    receive-IsSequenced c bytes now h =
        let c' = record c { last_inbound_ms_unix = now } in
        let payload = take 1500 bytes in
        if_cases IsSequenced (ltb (length payload) 4) (λ _. h)
          (λ _.
            handle_inbound-IsSequenced (confirm c') (from_be (take 4 payload)) payload
              (confirm-IsSequenced c' (keep c c' refl refl h)))

    step-IsSequenced :
        (c : SlimeClient) (call : Call)
        → IsCall call
        → IsSequenced c
        → IsSequenced (step d info c call)
    unfolding step
    step-IsSequenced c (receives bytes now) r h = receive-IsSequenced c bytes now h
    step-IsSequenced c (ticks now s) r h =
        let c' = expire c now in
        let h' = expire-IsSequenced c now h in
        if_cases IsSequenced c'.handshake_confirmed (λ _. h') (λ _. sent_handshake c' info s h')
    step-IsSequenced c (handshakes s) r h = sent_handshake c info s h
    step-IsSequenced c (sends_sensor_info desc s) r h = sent_one c _ s h
    step-IsSequenced c (sends_feature_flags f s) r h = sent_one c _ s h
    step-IsSequenced c (sends_motion i q v s s') r h = sent_motion c i q v s s' r h
    step-IsSequenced c (sends_rotation i q s) r h = sent_one c _ s h
    step-IsSequenced c (sends_acceleration i v s) r h = sent_one c _ s h
    step-IsSequenced c (sends_magnetometer i v s) r h = sent_one c _ s h
    step-IsSequenced c (sends_user_action a s) r h = sent_one c _ s h
    step-IsSequenced c (sends_battery v l s) r h = sent_one c _ s h

    run-IsSequenced' :
        (c : SlimeClient) (calls : List Call)
        → AreCalls calls
        → IsSequenced c
        → IsSequenced (run d info c calls)
    unfolding run
    run-IsSequenced' c [] r h = h
    run-IsSequenced' c (call ∷ calls) r h =
        run-IsSequenced' (step d info c call) calls r.1 (step-IsSequenced c call r.0 h)

    -- In every run from `connect`, in which a call and a round of a task are one step each, whatever
    -- arrives and whatever the socket answers, the datagrams that the client builds carry the sequence numbers 0, 1, 2 and so on, modulo 2 ^ 64, in the
    -- order in which they leave, and the counter holds the next one. The arguments of the calls that
    -- send a rotation with an acceleration lie in the ranges of their Rust types.
    pub run-IsSequenced :
        (first : Sending) (calls : List Call)
        → AreCalls calls
        → IsSequenced (run d info (connect d info first).0 calls)
    unfolding connect fresh
    run-IsSequenced first calls r =
        run-IsSequenced' (connect d info first).0 calls r
          (sent_handshake fresh info first (record { numbered = tt; next = refl }))
