-- ===== src/Slime/Bundle/RoundTrip.antt =====
-- `decode_bundle` after `encode_bundle`, and the other way round.
use everything_imu.Prelude.{
  ℕ, zero, suc, ◌+◌, ◌≤◌, ◌<◌, ◌≡◌, refl, ap, ◌∙◌, ◌^◌, List, [], ◌∷◌, ◌++◌, some, ok, arith,
  length, drop, drop-drop, le→ltb_false, true, All, to_be, append-nil, append_assoc, length-append,
  length-to_be, take-to_be, drop-to_be, from_be-to_be,
}
use everything_imu.Slime.Bundle.{
  BundleInner, bundle_tag, encode_inner, encode_bundle, decode_inner, decode_loop, decode_bundle,
  with_seq,
}
use everything_imu.Slime.Bundle.Frames.{Fits, written, decode_inner_lem}
use everything_imu.Slime.Bundle.Encode.{all_short, encode_bundle-written}

decode_loop-cons :
    (fuel : ℕ) (rest : List ℕ) (out : List BundleInner) {inner : BundleInner} {more : List ℕ}
    → decode_inner rest ≡ ok (inner, more)
    → decode_loop (suc fuel) rest out ≡ decode_loop fuel more (out ++ (inner ∷ []))
unfolding decode_loop
decode_loop-cons fuel [] out h = unfold decode_inner in cc h
decode_loop-cons fuel (b ∷ bs) out h = rw (h, decode_loop)

length-encode_inner : (inner : BundleInner) → 6 ≤ length (encode_inner inner)
unfolding encode_inner
length-encode_inner (t, payload) = omega (
  arith,
  length-append (to_be 2 (4 + length payload)) (to_be 4 t ++ payload),
  length-append (to_be 4 t) payload,
  length-to_be 2 (4 + length payload),
  length-to_be 4 t,
)

decode_loop-written :
    (inners : List BundleInner) (fuel : ℕ) (out : List BundleInner)
    → All Fits inners
    → length (written inners) ≤ fuel
    → decode_loop fuel (written inners) out ≡ some (ok (out ++ inners))
unfolding written
decode_loop-written [] fuel out h f = rw (append-nil out) (unfold decode_loop in refl)
decode_loop-written (i ∷ inners) zero out h f =
    absurd (omega (arith, length-encode_inner i, length-append (encode_inner i) (written inners)))
decode_loop-written (i ∷ inners) (suc fuel) out h f =
    decode_loop-cons fuel (encode_inner i ++ written inners) out
      (decode_inner_lem i (written inners) h.0)
    ∙ decode_loop-written inners fuel (out ++ (i ∷ [])) h.1
        (omega (arith, length-encode_inner i, length-append (encode_inner i) (written inners)))
    ∙ ap (λ l. some (ok l)) (append_assoc out (i ∷ []) inners)

abbrev header : ℕ → List ℕ → List ℕ
header seq rest = to_be 4 bundle_tag ++ (to_be 8 seq ++ rest)

length-header : (seq : ℕ) (rest : List ℕ) → length (header seq rest) ≡ 12 + length rest
length-header seq rest = omega (
  arith,
  length-append (to_be 4 bundle_tag) (to_be 8 seq ++ rest),
  length-append (to_be 8 seq) rest,
  length-to_be 4 bundle_tag,
  length-to_be 8 seq,
)

drop-header : (seq : ℕ) (rest : List ℕ) → drop 12 (header seq rest) ≡ rest
drop-header seq rest =
    drop-drop 4 8 (header seq rest)
    ∙ rw (drop-to_be 4 bundle_tag (to_be 8 seq ++ rest)) (drop-to_be 8 seq rest)

-- The decoder on a header of tag 100 is the loop on what follows.
decode_bundle-header :
    (seq : ℕ) (rest : List ℕ)
    → seq < 2 ^ 64
    → decode_bundle (header seq rest)
      ≡ with_seq seq (decode_loop (length (header seq rest)) rest [])
unfolding decode_bundle
decode_bundle-header seq rest h = rw (
  drop-header seq rest,
  take-to_be 4 bundle_tag (to_be 8 seq ++ rest),
  drop-to_be 4 bundle_tag (to_be 8 seq ++ rest),
  take-to_be 8 seq rest,
  from_be-to_be 8 seq h,
  from_be-to_be 4 bundle_tag (omega arith),
  le→ltb_false (length (header seq rest)) 12 (omega (arith, length-header seq rest)),
)

-- The inner packet's type is a `u32`.
abbrev pub IsTyped : BundleInner → Type 0
IsTyped (t, payload) = t < 2 ^ 32

all_short-Fits :
    (inners : List BundleInner) → all_short inners ≡ true → All IsTyped inners → All Fits inners
all_short-Fits [] h t = tt
all_short-Fits ((t, payload) ∷ inners) h ts =
    ((ts.0, ground arith), all_short-Fits inners (ground arith) ts.1)

encode_bundle_inv :
    (seq : ℕ) (inners : List BundleInner) {buf : List ℕ}
    → encode_bundle seq inners ≡ ok buf
    → (all_short inners ≡ true) × (buf ≡ header seq (written inners))
encode_bundle_inv seq inners e = ground (arith, encode_bundle-written seq inners)

-- Decoding what `encode_bundle` wrote gives back the sequence number, a `u64`, and the inner
-- packets, whose types are `u32`s, in order.
pub decode_bundle-encode_bundle :
    (seq : ℕ) (inners : List BundleInner) {buf : List ℕ}
    → seq < 2 ^ 64
    → All IsTyped inners
    → encode_bundle seq inners ≡ ok buf
    → decode_bundle buf ≡ some (ok (seq, inners))
decode_bundle-encode_bundle seq inners hs ht e =
    let (short, whole) = encode_bundle_inv seq inners e in
    rw (whole, decode_bundle-header seq (written inners) hs)
      (rw (
        decode_loop-written inners (length (header seq (written inners))) []
          (all_short-Fits inners short ht) (omega (arith, length-header seq (written inners)))))
