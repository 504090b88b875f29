-- ===== src/Slime/Client/Watchdog.antt =====
-- What the rounds of the watchdog do, and how a handshake that did not get through is counted.
use everything_imu.Prelude.{
  ℕ, zero, suc, append-nil, append_assoc, length, ◌+◌, ◌≤◌, ◌<◌, ◌≡◌, refl, sym, ap, ◌∙◌, ◌⊎◌, inr,
  List, [], ◌∷◌, ◌++◌, true, false, if_true, if◌then◌else◌, if_false, arith,
}
use mathlib.Core.Path.{subst, ap₂}
use everything_imu.Slime.Wire.{Deku}
use everything_imu.Slime.Strings.{from_str}
use everything_imu.Slime.Serverbound.{SbPacket, handshake}
use everything_imu.Slime.Client.{
  SlimeClient, HandshakeInfo, Sending, SendOutcome, delivered, unreachable, failed, Outgoing, own,
  bump, datagram, next_seq, record_sent, handshake_left, send_packet, send_handshake_inner,
  send_handshake,
}
use everything_imu.Slime.Client.Tasks.{expire, watchdog, Call, ticks, step, run}

-- The flag and the flags that depend on it, after a loss is noticed at `now`.
abbrev pub IsLost : SlimeClient → ℕ → SlimeClient → Type 0
IsLost c now c' =
    (c'.handshake_confirmed ≡ false)
    × (c'.server_supports_bundle ≡ false)
    × (c'.handshake_reset_count ≡ bump c.handshake_reset_count)
    × (c'.last_reset_ms_unix ≡ now)
    × (c'.events
        ≡ c.events
          ++ ((record { confirmed = false; reset_count = bump c.handshake_reset_count }) ∷ []))

expire_alive :
    (c : SlimeClient) (now : ℕ)
    → (c.last_inbound_ms_unix ≡ 0) ⊎ (now ≤ c.last_inbound_ms_unix + 2000)
    → expire c now ≡ c
unfolding expire
expire_alive c now h = ground arith

expire_off : (c : SlimeClient) (now : ℕ) → c.handshake_confirmed ≡ false → expire c now ≡ c
unfolding expire
expire_off c now h = ground arith

expire-IsLost :
    (c : SlimeClient) (now : ℕ)
    → c.handshake_confirmed ≡ true
    → 0 < c.last_inbound_ms_unix
    → c.last_inbound_ms_unix + 2000 < now
    → IsLost c now (expire c now)
      × ((expire c now).seq ≡ c.seq)
      × ((expire c now).outgoing ≡ c.outgoing)
unfolding expire
expire-IsLost c now on seen late = ground arith

module _ (d : Deku) (info : HandshakeInfo) where
  -- The handshake that the client sends.
  abbrev pub handshake_packet : SbPacket
  handshake_packet = handshake (record {
    board = info.board;
    imu = info.imu;
    mcu = info.mcu;
    imu_info = (info.mag_status, 0, 0);
    protocol_version = 19;
    firmware = from_str info.firmware;
    mac_address = info.mac_address;
  })

  -- While a handshake is confirmed and the last packet is at most two seconds old, a round changes
  -- nothing.
  pub watchdog_alive :
      (c : SlimeClient) (now : ℕ) (s : Sending)
      → c.handshake_confirmed ≡ true
      → now ≤ c.last_inbound_ms_unix + 2000
      → watchdog d info c now s ≡ c
  unfolding watchdog
  watchdog_alive c now s on h =
      let e : expire c now ≡ c = expire_alive c now (inr h) in
      if_true (expire c now).handshake_confirmed _ _
        (ap (λ (x : SlimeClient). x.handshake_confirmed) e ∙ on)
      ∙ e

  -- The handshakes of so many rounds, from a sequence number on.
  abbrev pub resends : ℕ → ℕ → List Outgoing
  resends zero seq = []
  resends (suc n) seq = own (datagram d seq handshake_packet) ∷ resends n (bump seq)

  -- `c'` is lost, and has sent one more handshake than `before`.
  abbrev Resent : SlimeClient → ℕ → SlimeClient → SlimeClient → Type 0
  Resent c now before c' =
      IsLost c now c'
      × (c'.seq ≡ bump before.seq)
      × (c'.outgoing ≡ before.outgoing ++ (own (datagram d before.seq handshake_packet) ∷ []))

  resend :
      (c c' : SlimeClient) (now : ℕ) (outcome : SendOutcome) (at_time : ℕ)
      → IsLost c now c'
      → Resent c now c' (handshake_left d at_time (send_handshake_inner d c' info outcome)).0
  unfolding send_handshake_inner next_seq record_sent
  resend c c' now delivered at_time h = (h, refl, refl)
  resend c c' now unreachable at_time h = (h, refl, refl)
  resend c c' now failed at_time h = (h, refl, refl)

  -- The round that notices the loss, and a later one.
  watchdog_first :
      (c : SlimeClient) (now : ℕ) (s : Sending)
      → c.handshake_confirmed ≡ true
      → 0 < c.last_inbound_ms_unix
      → c.last_inbound_ms_unix + 2000 < now
      → Resent c now c (watchdog d info c now s)
  unfolding watchdog
  watchdog_first c now s on seen late =
      let (lost, counter, out) = expire-IsLost c now on seen late in
      let (still, next, sent) = resend c (expire c now) now s.outcome s.now lost in
      subst (λ (x : SlimeClient). Resent c now c x)
        (sym (if_false (expire c now).handshake_confirmed _ _ lost.0))
        (
          still,
          next ∙ ap bump counter,
          sent
              ∙ ap₂ (λ (n : ℕ) (l : List Outgoing). l ++ (own (datagram d n handshake_packet) ∷ []))
                  counter out,
        )

  watchdog_again :
      (c c' : SlimeClient) (now later : ℕ) (s : Sending)
      → IsLost c now c'
      → Resent c now c' (watchdog d info c' later s)
  unfolding watchdog
  watchdog_again c c' now later s lost =
      subst
        (λ (x : SlimeClient). Resent c now c' (
          if x.handshake_confirmed
          then x
          else (handshake_left d s.now (send_handshake_inner d x info s.outcome)).0))
        (sym (expire_off c' later lost.0))
        (subst (λ (x : SlimeClient). Resent c now c' x)
          (sym (if_false c'.handshake_confirmed _ _ lost.0)) (resend c c' now s.outcome s.now lost))

  -- The rounds at these times, with what the socket answers.
  abbrev pub ticking : List (ℕ × Sending) → List Call
  ticking [] = []
  ticking ((now, s) ∷ rounds) = ticks now s ∷ ticking rounds

  -- After so many handshakes more than `before` has sent.
  abbrev pub AreResent : SlimeClient → ℕ → SlimeClient → ℕ → SlimeClient → Type 0
  AreResent c now before n c' =
      IsLost c now c' × (c'.outgoing ≡ before.outgoing ++ resends n before.seq)

  followed :
      (c before c' last : SlimeClient) (now : ℕ) (rounds : List (ℕ × Sending))
      → Resent c now before c'
      → AreResent c now c' (length rounds) last
      → AreResent c now before (suc (length rounds)) last
  followed c before c' last now rounds (lost, next, sent) (still, out) = (
    still,
    out
        ∙ ap₂ (λ (l : List Outgoing) (n : ℕ). l ++ resends (length rounds) n) sent next
        ∙ append_assoc before.outgoing (own (datagram d before.seq handshake_packet) ∷ [])
            (resends (length rounds) (bump before.seq)),
  )

  run_again :
      (c c' : SlimeClient) (now : ℕ) (rounds : List (ℕ × Sending))
      → IsLost c now c'
      → AreResent c now c' (length rounds) (run d info c' (ticking rounds))
  unfolding run step
  run_again c c' now [] lost = (lost, sym (append-nil c'.outgoing))
  run_again c c' now ((later, s) ∷ rounds) lost =
      followed c c' (watchdog d info c' later s)
        (run d info (watchdog d info c' later s) (ticking rounds)) now rounds
        (watchdog_again c c' now later s lost)
        (run_again c (watchdog d info c' later s) now rounds
          (watchdog_again c c' now later s lost).0)

  -- Let a handshake be confirmed, and let the first of some rounds of the watchdog, one after the other
  -- with no packet and no call between them, come more than two seconds after the last packet, whose
  -- time is not zero. However many rounds follow, the confirmation and the bundle support are taken
  -- back, the loss is counted once and announced once, with the time of the first round, and every
  -- round sends one handshake, whatever the socket answers, with consecutive sequence numbers.
  pub run-IsLost :
      (c : SlimeClient) (now : ℕ) (s : Sending) (rounds : List (ℕ × Sending))
      → c.handshake_confirmed ≡ true
      → 0 < c.last_inbound_ms_unix
      → c.last_inbound_ms_unix + 2000 < now
      → AreResent c now c (suc (length rounds)) (run d info c (ticking ((now, s) ∷ rounds)))
  unfolding run step
  run-IsLost c now s rounds on seen late =
      followed c c (watchdog d info c now s) (run d info (watchdog d info c now s) (ticking rounds))
        now rounds (watchdog_first c now s on seen late)
        (run_again c (watchdog d info c now s) now rounds (watchdog_first c now s on seen late).0)

  -- A handshake that the socket reports as unreachable is counted as a packet that was sent; any
  -- other packet that it reports so is not.
  pub unreachable_counts :
      (c : SlimeClient) (bytes : List ℕ) (now : ℕ)
      → ((send_handshake d c info (record { outcome = unreachable; now = now })).0.packets_sent
          ≡ bump c.packets_sent)
        × ((send_packet c bytes (record { outcome = unreachable; now = now })).0.packets_sent
            ≡ c.packets_sent)
  unfolding send_handshake send_handshake_inner record_sent next_seq send_packet
  unreachable_counts c bytes now = (refl, refl)
