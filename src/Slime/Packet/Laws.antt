-- ===== src/Slime/Packet/Laws.antt =====
-- Round trips and bounds of the packet wrapper.
use everything_imu.Prelude.{
  ℕ, ◌+◌, ◌<◌, ◌^◌, ◌≡◌, refl, List, [], ◌++◌, some, ok, err, arith, length, take, drop,
  length-append, ◌∙◌, to_be, from_be, drop-drop, drop-to_be, take-to_be, from_be-to_be,
}
use everything_imu.Slime.Errors.{deku_read}
use everything_imu.Slime.Wire.{Deku, >>=_step, >>=_fail, read_uint-uint_bytes, length-uint_bytes}
use everything_imu.Slime.Packet.{PacketBody, Packet, new, to_bytes, read_packet, deserialize_from}

module _ (d : Deku) {D : Type 0} (t : PacketBody D) where
  pub deserialize_from-to_bytes :
      (seq : ℕ) (x : D)
      → t.deku_id x < 2 ^ 32
      → seq < 2 ^ 64
      → t.read_body (t.deku_id x) (t.body x) ≡ some (x, [])
      → deserialize_from d t (to_bytes d t (new d t seq x)) ≡ ok (new d t seq x)
  unfolding deserialize_from to_bytes new read_packet
  deserialize_from-to_bytes seq x hid hseq hbody = rw (packet, deserialize_from)
    where
      packet : read_packet d t (to_bytes d t (new d t seq x)) ≡ some (new d t seq x, [])
      packet =
          >>=_step _ _ (read_uint-uint_bytes d 4 (t.deku_id x) _ hid)
            (>>=_step _ _ (read_uint-uint_bytes d 8 seq _ hseq) (>>=_step _ _ hbody refl))

  pub length-to_bytes :
      (p : Packet D)
      → p.tag < 2 ^ 32
      → p.seq < 2 ^ 64
      → length (to_bytes d t p) ≡ 12 + length (t.body p.payload)
  unfolding to_bytes
  length-to_bytes p ht hs = omega (
    arith,
    length-append (d.uint_bytes 4 p.tag) (d.uint_bytes 8 p.seq ++ t.body p.payload),
    length-append (d.uint_bytes 8 p.seq) (t.body p.payload),
    length-uint_bytes d 4 p.tag ht,
    length-uint_bytes d 8 p.seq hs,
  )

  -- A datagram shorter than its header is a read error.
  pub deserialize_from_short :
      (buf : List ℕ) → length buf < 4 → deserialize_from d t buf ≡ err deku_read
  unfolding deserialize_from read_packet
  deserialize_from_short buf h =
      rw (>>=_fail (d.read_uint 4) _ (d.read_uint_short 4 buf h), deserialize_from)

  -- Where the header's fields stand.
  pub drop-to_bytes :
      (p : Packet D) → p.tag < 2 ^ 32 → p.seq < 2 ^ 64 → drop 12 (to_bytes d t p) ≡ t.body p.payload
  unfolding to_bytes
  drop-to_bytes p ht hs =
      rw (d.uint_bytes_be 4 p.tag ht, d.uint_bytes_be 8 p.seq hs)
        (drop-drop 4 8 (to_be 4 p.tag ++ (to_be 8 p.seq ++ t.body p.payload))
          ∙ rw (drop-to_be 4 p.tag (to_be 8 p.seq ++ t.body p.payload))
              (drop-to_be 8 p.seq (t.body p.payload)))

  pub to_bytes-seq :
      (p : Packet D)
      → p.tag < 2 ^ 32
      → p.seq < 2 ^ 64
      → from_be (take 8 (drop 4 (to_bytes d t p))) ≡ p.seq
  unfolding to_bytes
  to_bytes-seq p ht hs =
      rw (d.uint_bytes_be 4 p.tag ht, d.uint_bytes_be 8 p.seq hs)
        (rw (
          drop-to_be 4 p.tag (to_be 8 p.seq ++ t.body p.payload),
          take-to_be 8 p.seq (t.body p.payload),
          from_be-to_be 8 p.seq hs,
        ))
