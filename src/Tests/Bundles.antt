-- ===== src/Tests/Bundles.antt =====
-- Bundles of two motion packets, on concrete bytes.
use everything_imu.Prelude.{
  ℕ, ◌≡◌, ◌≢◌, refl, List, [], ◌∷◌, ◌++◌, none, some, ok, arith, to_be, from_be_acc,
}
use everything_imu.Slime.Bundle.{
  BundleInner, encode_inner, encode_inners, encode_bundle, decode_body, decode_inner, decode_loop,
  decode_bundle,
}
use everything_imu.Slime.Bundle.Frames.{frames}
use everything_imu.Slime.Bundle.Encode.{encode_bundle_lem}
use everything_imu.Slime.Bundle.Decode.{decode_bundle-ne-none, encode_bundle-decode_bundle}
use everything_imu.Slime.Bundle.RoundTrip.{decode_bundle-encode_bundle}

-- Sequence number 7, a packet of type 17 with two bytes, and one of type 4 with one byte.
abbrev motion_bytes : List ℕ
motion_bytes =
    0 ∷ 0 ∷ 0 ∷ 100 ∷ 0 ∷ 0 ∷ 0 ∷ 0 ∷ 0 ∷ 0 ∷ 0 ∷ 7 ∷ 0 ∷ 6 ∷ 0 ∷ 0 ∷ 0 ∷ 17 ∷ 1 ∷ 2 ∷ 0 ∷ 5 ∷ 0 ∷ 0
    ∷ 0 ∷ 4 ∷ 3 ∷ []

abbrev motion_packets : List BundleInner
motion_packets = (17, 1 ∷ 2 ∷ []) ∷ (4, 3 ∷ []) ∷ []

encodes : encode_bundle 7 motion_packets ≡ ok motion_bytes
unfolding encode_bundle encode_inners encode_inner to_be
encodes = refl

decodes : decode_bundle motion_bytes ≡ some (ok (7, motion_packets))
unfolding decode_bundle decode_loop decode_inner decode_body from_be_acc
decodes = refl

decode_bundle-encode_bundle_example : decode_bundle motion_bytes ≡ some (ok (7, motion_packets))
decode_bundle-encode_bundle_example =
    decode_bundle-encode_bundle 7 motion_packets {buf = motion_bytes} (omega arith)
      (omega arith, (omega arith, tt)) encodes

encode_bundle-decode_bundle_example : encode_bundle 7 motion_packets ≡ ok motion_bytes
encode_bundle-decode_bundle_example =
    encode_bundle-decode_bundle motion_bytes 7 motion_packets (ground arith) decodes

decode_bundle-ne-none_example : decode_bundle motion_bytes ≢ none
decode_bundle-ne-none_example = decode_bundle-ne-none motion_bytes

encode_bundle_lem_example :
    encode_bundle 7 motion_packets ≡ ok (to_be 4 100 ++ (to_be 8 7 ++ frames motion_packets))
encode_bundle_lem_example = encode_bundle_lem 7 motion_packets
