-- ===== src/Slime/Bundle/Frames.antt =====
-- One round of each loop, and the frames that the encoder writes.
use everything_imu.Prelude.{
  ℕ, ◌+◌, ◌-◌, ◌^◌, ◌≤◌, ◌<◌, ◌≡◌, refl, List, [], ◌∷◌, ◌++◌, ok, arith, length, to_be, from_be,
  length-to_be, from_be-to_be, length-append, append_assoc, take-append, take-to_be, drop-to_be,
  le→ltb_false, drop-append,
}
use mathlib.Core.Path.{ap₂}
use everything_imu.Slime.Bundle.{BundleInner, encode_inner, decode_body, decode_inner}

-- An inner packet whose type is a `u32` and whose payload fits the `u16` length.
abbrev pub Fits : BundleInner → Type 0
Fits (t, payload) = (t < 2 ^ 32) × (length payload ≤ 65531)

-- The bytes of one inner packet: a big-endian `u16` with the length of what follows it, which is the
-- type, a big-endian `u32`, and the payload.
abbrev pub frame : BundleInner → List ℕ
frame (inner_type, payload) =
    let covered = to_be 4 inner_type ++ payload in to_be 2 (length covered) ++ covered

unfoldable pub frames : List BundleInner → List ℕ
frames [] = []
frames (inner ∷ inners) = frame inner ++ frames inners

-- What the rounds of the encoder append.
unfoldable pub written : List BundleInner → List ℕ
written [] = []
written (inner ∷ inners) = encode_inner inner ++ written inners

encode_inner_lem : (inner : BundleInner) → encode_inner inner ≡ frame inner
unfolding encode_inner
encode_inner_lem (t, payload) = rw (length-append, length-to_be) refl

pub written-frames : (inners : List BundleInner) → written inners ≡ frames inners
unfolding written frames
written-frames [] = refl
written-frames (inner ∷ inners) = ap₂ ◌++◌ (encode_inner_lem inner) (written-frames inners)

-- A round reads the frame that the encoder wrote.
decode_body_lem :
    (t : ℕ) (payload more : List ℕ)
    → t < 2 ^ 32
    → decode_body (4 + length payload) (to_be 4 t ++ (payload ++ more)) ≡ ok ((t, payload), more)
unfolding decode_body
decode_body_lem t payload more h =
    rw (take-to_be 4 t (payload ++ more), drop-to_be 4 t (payload ++ more), from_be-to_be 4 t h)
      (rw (length-append, length-to_be, length-append)
        (let e : 4 + length payload - 4 ≡ length payload = omega arith in
          rw (e, take-append, drop-append) (ground arith)))

pub decode_inner_lem :
    (inner : BundleInner) (more : List ℕ)
    → Fits inner
    → decode_inner (encode_inner inner ++ more) ≡ ok (inner, more)
unfolding decode_inner encode_inner
decode_inner_lem (t, payload) more (ht, hp) =
    let word : from_be (to_be 2 (4 + length payload)) ≡ 4 + length payload =
      from_be-to_be 2 (4 + length payload) (omega arith) in
    let body = to_be 4 t ++ (payload ++ more) in
    let size : length (to_be 2 (4 + length payload) ++ body)
        ≡ 2 + (4 + (length payload + length more)) =
      omega (
        arith,
        length-append (to_be 2 (4 + length payload)) body,
        length-append (to_be 4 t) (payload ++ more),
        length-append payload more,
        length-to_be 2 (4 + length payload),
        length-to_be 4 t,
      ) in
    rw
      (
        append_assoc (to_be 2 (4 + length payload)) (to_be 4 t ++ payload) more,
        append_assoc (to_be 4 t) payload more,
      )
      (rw (take-to_be 2 (4 + length payload) body, drop-to_be 2 (4 + length payload) body, word)
        (rw (decode_body_lem t payload more ht) (
          rw (
            le→ltb_false (length (to_be 2 (4 + length payload) ++ body)) 6 (omega (arith, size))))))
