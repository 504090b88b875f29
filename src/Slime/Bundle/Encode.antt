-- ===== src/Slime/Bundle/Encode.antt =====
-- What `encode_bundle` writes, and when it refuses.
use everything_imu.Prelude.{
  ℕ, ◌&&◌, ◌≡◌, List, [], ◌∷◌, ◌++◌, ok, err, arith, true, Bool, leb, if◌then◌else◌, length, to_be,
  append-nil, append_assoc,
}
use everything_imu.Slime.Errors.{buffer_too_small}
use everything_imu.Slime.Bundle.{
  BundleInner, bundle_tag, encode_inner, encode_inners, encode_bundle,
}
use everything_imu.Slime.Bundle.Frames.{frames, written, written-frames}

-- Every payload fits the `u16` length prefix, which counts the type too.
abbrev pub all_short : List BundleInner → Bool
all_short [] = true
all_short ((t, payload) ∷ inners) = leb (length payload) 65531 && all_short inners

encode_inners_lem :
    (buf : List ℕ) (inners : List BundleInner)
    → encode_inners buf inners
      ≡ (if all_short inners then ok (buf ++ written inners) else err buffer_too_small)
unfolding encode_inners written
encode_inners_lem buf [] = rw (append-nil buf)
encode_inners_lem buf ((t, payload) ∷ inners) = ground (
  arith,
  encode_inners_lem (buf ++ encode_inner (t, payload)) inners,
  append_assoc buf (encode_inner (t, payload)) (written inners),
)

pub encode_bundle-written :
    (seq : ℕ) (inners : List BundleInner)
    → encode_bundle seq inners ≡ (
        if all_short inners
        then ok (to_be 4 bundle_tag ++ (to_be 8 seq ++ written inners))
        else err buffer_too_small)
unfolding encode_bundle
encode_bundle-written seq inners = ground (
  arith,
  encode_inners_lem (to_be 4 bundle_tag ++ to_be 8 seq) inners,
  append_assoc (to_be 4 bundle_tag) (to_be 8 seq) (written inners),
)

-- If every payload is at most 65531 bytes long, `encode_bundle` writes the tag 100 in four bytes, the
-- sequence number in eight, and for each inner packet, in order, two bytes with the length of the
-- type and the payload together, four bytes with the type, and the payload, all big-endian; else it
-- returns `BufferTooSmall`.
pub encode_bundle_lem :
    (seq : ℕ) (inners : List BundleInner)
    → encode_bundle seq inners ≡ (
        if all_short inners
        then ok (to_be 4 bundle_tag ++ (to_be 8 seq ++ frames inners))
        else err buffer_too_small)
encode_bundle_lem seq inners = rw (← written-frames inners) (encode_bundle-written seq inners)
