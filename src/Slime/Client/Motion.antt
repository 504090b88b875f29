-- ===== src/Slime/Client/Motion.antt =====
-- The hot path: one bundle, or the rotation and then the acceleration.
use everything_imu.Prelude.{
  ℕ, ◌<◌, ◌^◌, ◌≡◌, ◌≢◌, refl, sym, ap, ◌∙◌, if_true, if_false, List, [], ◌∷◌, ◌++◌, true, false,
  some, ok, err, Result, arith, drop, to_be, ◌⊎◌, inl, inr, append_assoc,
}
use mathlib.Core.Path.{subst}
use everything_imu.Slime.Wire.{Deku}
use everything_imu.Slime.Packet.{new}
use everything_imu.Slime.Packet.Laws.{drop-to_bytes}
use everything_imu.Slime.Bundle.{BundleInner, encode_bundle, decode_bundle}
use everything_imu.Slime.Bundle.Encode.{all_short, encode_bundle_lem}
use everything_imu.Slime.Bundle.Frames.{frames}
use everything_imu.Slime.Bundle.RoundTrip.{decode_bundle-encode_bundle}
use everything_imu.Slime.Serverbound.{
  SbPacket, SlimeQuaternion, Triple, acceleration, sb_id, sb_body, read_sb_body,
}
use everything_imu.Slime.Serverbound.Ranges.{IsTriple, IsQuaternion}
use everything_imu.Slime.Serverbound.RoundTrip.{read_sb_body-sb_body}
use everything_imu.Slime.Serverbound.Datagrams.{
  sb_packet_body, sb_id-lt, length-rotation, length-acceleration,
}
use everything_imu.Slime.Client.{
  SlimeClient, own, Sending, SendOutcome, delivered, unreachable, failed, ClientError, io, bump,
  datagram, rotation_packet, next_seq, hand_over, record_sent, send_packet, send_one, send_rotation,
  send_acceleration, and_then, send_bundle_rot_accel, send_rotation_and_accel,
}

-- The arguments lie in the ranges of their Rust types.
abbrev pub IsMotion : ℕ → SlimeQuaternion → Triple → Type 0
IsMotion sensor_id rotation accel = (sensor_id < 256) × IsQuaternion rotation × IsTriple accel

outgoing-send_packet :
    (c : SlimeClient) (bytes : List ℕ) (s : Sending)
    → (send_packet c bytes s).0.outgoing ≡ c.outgoing ++ (own bytes ∷ [])
unfolding send_packet
outgoing-send_packet c bytes s = ground arith

module _ (d : Deku) where
  drop-datagram : (seq : ℕ) (p : SbPacket) → seq < 2 ^ 64 → drop 12 (datagram d seq p) ≡ sb_body d p
  unfolding datagram new
  drop-datagram seq p h =
      drop-to_bytes d (sb_packet_body d) (new d (sb_packet_body d) seq p) (sb_id-lt p) h

  -- The inner packets of a motion bundle.
  abbrev pub motion_inners : ℕ → SlimeQuaternion → Triple → List BundleInner
  motion_inners sensor_id rotation accel =
      (17, sb_body d (rotation_packet d sensor_id rotation))
      ∷ (4, sb_body d (acceleration accel sensor_id))
      ∷ []

  module _ (c : SlimeClient) (sensor_id : ℕ) (rotation : SlimeQuaternion) (accel : Triple) where
    abbrev pub bundled : List ℕ
    bundled = to_be 4 100 ++ (to_be 8 c.seq ++ frames (motion_inners sensor_id rotation accel))

    encoded :
        IsMotion sensor_id rotation accel
        → encode_bundle c.seq (motion_inners sensor_id rotation accel) ≡ ok bundled
    encoded ranges = encode_bundle_lem c.seq (motion_inners sensor_id rotation accel) ∙ rw (short)
      where
        short : all_short (motion_inners sensor_id rotation accel) ≡ true
        short = ground (
          arith,
          length-rotation d sensor_id rotation (ranges.0, ranges.1, omega arith),
          length-acceleration d accel sensor_id (ranges.2, ranges.0),
        )

    pub bundle_sent :
        (s : Sending)
        → IsMotion sensor_id rotation accel
        → (send_bundle_rot_accel d c sensor_id rotation accel s).0.outgoing
          ≡ c.outgoing ++ (own bundled ∷ [])
    unfolding send_bundle_rot_accel next_seq
    bundle_sent s ranges =
        rw
          (
            drop-datagram 0 (rotation_packet d sensor_id rotation) (omega arith),
            drop-datagram 0 (acceleration accel sensor_id) (omega arith),
            encoded ranges,
          )
          (outgoing-send_packet (next_seq c) bundled s)

    -- If the server supports bundles, the arguments lie in the ranges of their Rust types and the
    -- sequence number is a `u64`, the call hands one datagram to the socket. `decode_bundle` reads
    -- from it the client's next sequence number and two inner packets of types 17 and 4, which are
    -- read as the rotation and the acceleration that the call was given.
    pub send_rotation_and_accel_bundle :
        (s s' : Sending)
        → IsMotion sensor_id rotation accel
        → c.seq < 2 ^ 64
        → c.server_supports_bundle ≡ true
        → (bytes rot acc : List ℕ) × ((send_rotation_and_accel d c sensor_id rotation accel s
              s').0.outgoing
            ≡ c.outgoing ++ (own bytes ∷ []))
          × (decode_bundle bytes ≡ some (ok (c.seq, (17, rot) ∷ (4, acc) ∷ [])))
          × (read_sb_body d 17 rot ≡ some (rotation_packet d sensor_id rotation, []))
          × (read_sb_body d 4 acc ≡ some (acceleration accel sensor_id, []))
    unfolding sb_id send_rotation_and_accel
    send_rotation_and_accel_bundle s s' ranges hs on = (
      bundled,
      sb_body d (rotation_packet d sensor_id rotation),
      sb_body d (acceleration accel sensor_id),
      ap (λ (r : SlimeClient × Result ClientError (Unit {0})). r.0.outgoing)
            (if_true c.server_supports_bundle _ _ on)
          ∙ bundle_sent s ranges,
      decode_bundle-encode_bundle c.seq (motion_inners sensor_id rotation accel) hs
          (omega arith, (omega arith, tt)) (encoded ranges),
      read_sb_body-sb_body d (rotation_packet d sensor_id rotation)
          (ranges.0, ranges.1, omega arith),
      read_sb_body-sb_body d (acceleration accel sensor_id) (ranges.2, ranges.0),
    )

  abbrev pub Fallback :
      SlimeClient
      → SbPacket
      → SbPacket
      → SendOutcome
      → SlimeClient × Result ClientError (Unit {0})
      → Type 0
  Fallback c first second outcome (c', r) =
      ((outcome ≢ failed)
        × (c'.outgoing
            ≡ c.outgoing
              ++ (own (datagram d c.seq first) ∷ own (datagram d (bump c.seq) second) ∷ [])))
      ⊎ ((outcome ≡ failed)
          × (c'.outgoing ≡ c.outgoing ++ (own (datagram d c.seq first) ∷ []))
          × (r ≡ err io))

  two_sends :
      (c : SlimeClient) (first second : SbPacket) (outcome : SendOutcome) (now : ℕ) (s' : Sending)
      → Fallback c first second outcome (
          and_then d
            (send_one d c first (record { outcome = outcome; now = now }))
            (λ c'. send_one d c' second s'))
  unfolding send_one send_packet next_seq record_sent
  two_sends c first second delivered now s' = inl (
    (λ e. cc),
    outgoing-send_packet
          (next_seq (record_sent (hand_over (next_seq c) (own (datagram d c.seq first))) now))
          (datagram d (bump c.seq) second) s'
        ∙ append_assoc c.outgoing (own (datagram d c.seq first) ∷ [])
            (own (datagram d (bump c.seq) second) ∷ []),
  )
  two_sends c first second unreachable now s' = inl (
    (λ e. cc),
    outgoing-send_packet (next_seq (hand_over (next_seq c) (own (datagram d c.seq first))))
          (datagram d (bump c.seq) second) s'
        ∙ append_assoc c.outgoing (own (datagram d c.seq first) ∷ [])
            (own (datagram d (bump c.seq) second) ∷ []),
  )
  two_sends c first second failed now s' = inr (refl, refl, refl)

  -- If the server does not support bundles, the rotation goes out first, with the client's next
  -- sequence number. The acceleration follows with the number after it, unless the first send fails;
  -- then nothing follows, and the call returns the error.
  pub send_rotation_and_accel-Fallback :
      (c : SlimeClient) (sensor_id : ℕ) (rotation : SlimeQuaternion) (accel : Triple)
      (s s' : Sending)
      → c.server_supports_bundle ≡ false
      → Fallback c
          (rotation_packet d sensor_id rotation)
          (acceleration accel sensor_id)
          s.outcome
          (send_rotation_and_accel d c sensor_id rotation accel s s')
  unfolding send_rotation_and_accel send_rotation send_acceleration
  send_rotation_and_accel-Fallback c sensor_id rotation accel s s' off =
      subst
        (Fallback c (rotation_packet d sensor_id rotation) (acceleration accel sensor_id) s.outcome)
        (sym (if_false c.server_supports_bundle _ _ off))
        (two_sends c (rotation_packet d sensor_id rotation) (acceleration accel sensor_id) s.outcome
          s.now s')
