-- ===== src/Slime/Client/Interleaved/Alone.antt =====
-- Rounds of the tasks that nothing interrupts, beside the steps that Tasks makes of them.
use everything_imu.Prelude.{
  ℕ, ◌-◌, List, [], ◌∷◌, ◌&&◌, ltb, ◌≡◌, refl, Bool-cases, inl, inr, zero, suc, length, take,
}
use everything_imu.Slime.Wire.{Deku}
use everything_imu.Slime.Client.{SlimeClient, HandshakeInfo, Sending}
use everything_imu.Slime.Client.Tasks.{confirm, receive, expire, watchdog}
use everything_imu.Slime.Client.Interleaved.{
  waiting, sleeping, Watchdog, Receiver, Action, arrives, receiver_goes, watchdog_goes, arrive,
  advance_receiver, advance_watchdog, act, acted,
}
use everything_imu.Slime.Client.Interleaved.Owed.{tasks}

module _ (d : Deku) (info : HandshakeInfo) where
  -- Enough steps of the receiver for one datagram; a receiver in `recv` does nothing.
  abbrev receives_alone : List ℕ → ℕ → List (Action d info)
  receives_alone datagram now =
      arrives datagram now ∷ receiver_goes ∷ receiver_goes ∷ receiver_goes ∷ receiver_goes ∷ []

  -- A datagram that is handled with no access of the watchdog in between does what `receive` does.
  acted-receive :
      (c : SlimeClient) (w : Watchdog) (datagram : List ℕ) (now : ℕ)
      → acted d info (tasks c waiting w) (receives_alone datagram now)
        ≡ tasks (receive c datagram now) waiting w
  unfolding acted act arrive advance_receiver receive confirm
  acted-receive c w datagram now = elim (Bool-cases (ltb (length (take 1500 datagram)) 4)) [
    | inl t ↦ rw t refl
    | inr f ↦ elim (Bool-cases c.handshake_confirmed) [
      | inl on ↦ rw (f, on) refl
      | inr off ↦ rw (f, off) refl
    ]
  ]

  -- `n` steps of the watchdog, for which the clock and the socket answer with `s`.
  abbrev ticks_alone : ℕ → Sending → List (Action d info)
  ticks_alone zero s = []
  ticks_alone (suc n) s = watchdog_goes s ∷ ticks_alone n s

  -- A round of the watchdog with no access of the receiver in between does what `watchdog` does.
  acted-watchdog :
      (c : SlimeClient) (r : Receiver) (s : Sending)
      → (n : ℕ) × (acted d info (tasks c r sleeping) (ticks_alone n s)
          ≡ tasks (watchdog d info c s.now s) r sleeping)
  unfolding acted act advance_watchdog watchdog expire
  acted-watchdog c r s =
      elim (Bool-cases (
        c.handshake_confirmed
        && (ltb 0 c.last_inbound_ms_unix && ltb 2000 (s.now - c.last_inbound_ms_unix)))) [
          | inl t ↦ (9, rw t refl)
          | inr f ↦ elim (Bool-cases c.handshake_confirmed) [
            | inl on ↦ (3, rw (f, on) refl)
            | inr off ↦ (4, rw (f, off) refl)
          ]
        ]
