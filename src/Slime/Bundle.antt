-- ===== src/Slime/Bundle.antt =====
-- `encode_bundle` and `decode_bundle` of crates/slime-tracker/src/lib.rs.
-- A byte slice is a list of numbers, and a `u32` or `u64` a number. The decoder's cursor is the
-- list of the bytes behind it.
pub mod Frames
pub mod Encode
pub mod RoundTrip
pub mod Decode
use everything_imu.Prelude.{
  ℕ, zero, suc, ◌+◌, ◌-◌, ◌≤◌, ◌<◌, ◌||◌, List, [], ◌∷◌, ◌++◌, Option, none, some, Result, ok, err,
  ltb, ◌==◌, if◌then◌else◌, length, take, drop, to_be, from_be,
}
use everything_imu.Slime.Errors.{
  SerializeError, buffer_too_small, DeserializeError, truncated, wrong_tag,
}

abbrev pub bundle_tag : ℕ
bundle_tag = 100

-- `(inner_type, payload)`.
abbrev pub BundleInner : Type 0
BundleInner = ℕ × List ℕ

-- What the round for one inner packet appends to the buffer.
unfoldable pub encode_inner : BundleInner → List ℕ
encode_inner (inner_type, payload) = to_be 2 (4 + length payload) ++ (to_be 4 inner_type ++ payload)

-- The `for` loop: it stops at the first payload that the `u16` length cannot express.
unfoldable pub encode_inners : List ℕ → List BundleInner → Result SerializeError (List ℕ)
encode_inners buf [] = ok buf
encode_inners buf ((inner_type, payload) ∷ inners) =
    let rest = encode_inners (buf ++ encode_inner (inner_type, payload)) inners in
    if ltb 65535 (4 + length payload) then err buffer_too_small else rest

unfoldable pub encode_bundle : ℕ → List BundleInner → Result SerializeError (List ℕ)
unfolding encode_inners
encode_bundle seq inners = encode_inners (to_be 4 bundle_tag ++ to_be 8 seq) inners

-- The rest of a round of the `while` loop, behind the `u16` length: the inner packet, and what
-- the cursor has not reached.
unfoldable pub decode_body : ℕ → List ℕ → Result DeserializeError (BundleInner × List ℕ)
decode_body inner_len body =
    if ltb inner_len 4 || ltb (length body) inner_len
    then err truncated
    else let behind = drop 4 body in
      ok ((from_be (take 4 body), take (inner_len - 4) behind), drop (inner_len - 4) behind)

-- One round of the `while` loop.
unfoldable pub decode_inner : List ℕ → Result DeserializeError (BundleInner × List ℕ)
decode_inner rest =
    if ltb (length rest) 6 then err truncated else decode_body (from_be (take 2 rest)) (drop 2 rest)

-- The `while` loop on fuel: `none` is no Rust value, the fuel ran out.
unfoldable pub decode_loop :
    ℕ → List ℕ → List BundleInner → Option (Result DeserializeError (List BundleInner))
decode_loop fuel [] out = some (ok out)
decode_loop zero (b ∷ bs) out = none
decode_loop (suc fuel) (b ∷ bs) out = elim (decode_inner (b ∷ bs)) [
  | err e ↦ some (err e)
  | ok (inner, rest) ↦ decode_loop fuel rest (out ++ (inner ∷ []))
]

-- Pairs the sequence number with the list that the loop returns.
abbrev pub with_seq :
    ℕ
    → Option (Result DeserializeError (List BundleInner))
    → Option (Result DeserializeError (ℕ × List BundleInner))
with_seq seq none = none
with_seq seq (some (err e)) = some (err e)
with_seq seq (some (ok out)) = some (ok (seq, out))

-- Each round takes six bytes at least, so the buffer's length is fuel enough.
unfoldable pub decode_bundle : List ℕ → Option (Result DeserializeError (ℕ × List BundleInner))
unfolding decode_loop
decode_bundle buf =
    let tag = from_be (take 4 buf) in
    let seq = from_be (take 8 (drop 4 buf)) in
    if ltb (length buf) 12
    then some (err truncated)
    else if tag == bundle_tag
    then with_seq seq (decode_loop (length buf) (drop 12 buf) [])
    else some (err (wrong_tag tag))
