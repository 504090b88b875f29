-- ===== src/Slime/Client/Interleaved/Races.antt =====
-- crates/slime-tracker/src/client.rs: a reply that overtakes the watchdog.
use everything_imu.Prelude.{
  ℕ, ◌+◌, ◌-◌, ◌<◌, ◌&&◌, ltb, List, [], ◌∷◌, true, false, ◌≡◌, refl, arith, from_be_acc,
}
use everything_imu.Slime.Wire.{Deku}
use everything_imu.Slime.Client.{SlimeClient, HandshakeInfo, Sending}
use everything_imu.Slime.Client.Tasks.{handle_inbound}
use everything_imu.Slime.Client.Interleaved.{
  waiting, sleeping, arrive, advance_receiver, advance_watchdog, Action, arrives, receiver_goes,
  watchdog_goes, act, acted,
}

-- The FEATURE_FLAGS reply that allows bundles.
abbrev pub allows_bundles : List ℕ
allows_bundles = 0 ∷ 0 ∷ 0 ∷ 22 ∷ 0 ∷ 0 ∷ 0 ∷ 0 ∷ 0 ∷ 0 ∷ 0 ∷ 1 ∷ 1 ∷ []

module _ (d : Deku) (info : HandshakeInfo) where
  -- The reply comes when the watchdog has read the time of the last packet, and is handled when the
  -- watchdog has taken back the confirmation and the bundles.
  abbrev pub overtakes : Sending → List (Action d info)
  overtakes s =
      watchdog_goes s
      ∷ arrives allows_bundles s.now
      ∷ receiver_goes
      ∷ watchdog_goes s
      ∷ watchdog_goes s
      ∷ watchdog_goes s
      ∷ receiver_goes
      ∷ []

  guard_holds :
      (c : SlimeClient) (now : ℕ)
      → c.handshake_confirmed ≡ true
      → 0 < c.last_inbound_ms_unix
      → c.last_inbound_ms_unix + 2000 < now
      → (ltb 0 c.last_inbound_ms_unix && ltb 2000 (now - c.last_inbound_ms_unix)) ≡ true
  guard_holds c now on seen late = ground arith

  -- From every state in which a handshake is confirmed and the last packet, whose time is not zero, is
  -- more than two seconds old, there is an order of the accesses in which the client uses bundles while
  -- no handshake is confirmed.
  pub overtaken_bundles :
      (c : SlimeClient) (s : Sending)
      → c.handshake_confirmed ≡ true
      → 0 < c.last_inbound_ms_unix
      → c.last_inbound_ms_unix + 2000 < s.now
      → let t =
          acted d info
            (record { client = c; receiver = waiting; watchdog = sleeping })
            (overtakes s) in
        (t.client.handshake_confirmed ≡ false) × (t.client.server_supports_bundle ≡ true)
  unfolding acted act arrive advance_receiver advance_watchdog handle_inbound from_be_acc
  overtaken_bundles c s on seen late = rw (on, guard_holds c s.now on seen late) (refl, refl)
