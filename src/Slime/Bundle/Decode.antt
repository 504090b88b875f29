-- ===== src/Slime/Bundle/Decode.antt =====
-- `decode_bundle` on any bytes: it ends, and what it accepts is the encoding of its result.
use everything_imu.Prelude.{
  ℕ, zero, suc, ◌+◌, ◌-◌, ◌≤◌, ◌<◌, ◌≡◌, ◌≢◌, refl, ap, ◌∙◌, ◌^◌, List, [], ◌∷◌, ◌++◌, Option, some,
  none, Result, ok, err, arith, length, take, drop, All, IsByte, to_be, from_be, append-nil,
  append_assoc, length-take, length-drop, take-append-drop, All-drop, rewrite_word, word-lt,
  Result-cases, inl, inr, ltb, ◌==◌, ==_iff, ltb_false→le, if◌then◌else◌, Bool, drop-drop, true,
  false,
}
use everything_imu.Slime.Errors.{DeserializeError, truncated, wrong_tag}
use everything_imu.Slime.Bundle.{
  BundleInner, bundle_tag, encode_inner, encode_bundle, decode_body, decode_inner, decode_loop,
  decode_bundle, with_seq,
}
use everything_imu.Slime.Bundle.Frames.{written}
use everything_imu.Slime.Bundle.Encode.{all_short, encode_bundle-written}

decode_body_inv :
    (inner_len : ℕ) (body : List ℕ) {inner : BundleInner} {more : List ℕ}
    → decode_body inner_len body ≡ ok (inner, more)
    → (4 ≤ inner_len)
      × (inner_len ≤ length body)
      × (inner ≡ (from_be (take 4 body), take (inner_len - 4) (drop 4 body)))
      × (more ≡ drop (inner_len - 4) (drop 4 body))
unfolding decode_body
decode_body_inv inner_len body h = ground arith

decode_inner_inv :
    (rest : List ℕ) {inner : BundleInner} {more : List ℕ}
    → decode_inner rest ≡ ok (inner, more)
    → (6 ≤ length rest) × (decode_body (from_be (take 2 rest)) (drop 2 rest) ≡ ok (inner, more))
unfolding decode_inner
decode_inner_inv rest h = ground arith

-- A round moves the cursor.
decode_inner_shorter :
    (rest : List ℕ) {inner : BundleInner} {more : List ℕ}
    → decode_inner rest ≡ ok (inner, more)
    → length more < length rest
decode_inner_shorter rest h =
    let (six, body) = decode_inner_inv rest h in
    let (four, fits, i, m) = decode_body_inv (from_be (take 2 rest)) (drop 2 rest) body in
    rw m (
      omega (
        arith,
        length-drop (from_be (take 2 rest) - 4) (drop 4 (drop 2 rest)),
        length-drop 4 (drop 2 rest),
        length-drop 2 rest,
      ))

decode_loop-ne-none :
    (fuel : ℕ) (rest : List ℕ) (out : List BundleInner)
    → length rest ≤ fuel
    → decode_loop fuel rest out ≢ none
unfolding decode_loop
decode_loop-ne-none fuel [] out h = λ e. cc
decode_loop-ne-none zero (b ∷ bs) out h = absurd (omega arith)
decode_loop-ne-none (suc fuel) (b ∷ bs) out h = elim (Result-cases (decode_inner (b ∷ bs))) [
  | inl ((inner, more), r) ↦
      rw (r, decode_loop)
        (decode_loop-ne-none fuel more (out ++ (inner ∷ []))
          (omega (arith, decode_inner_shorter (b ∷ bs) r)))
  | inr (x, r) ↦ rw (r, decode_loop) (λ e. cc)
]

-- `decode_bundle` returns on every input: the loop never runs out of fuel.
pub decode_bundle-ne-none : (buf : List ℕ) → decode_bundle buf ≢ none
unfolding decode_bundle
decode_bundle-ne-none buf =
    ground
      (arith, decode_loop-ne-none (length buf) (drop 12 buf) [] (omega (arith, length-drop 12 buf)))

decode_inner_sound :
    (rest : List ℕ) {inner : BundleInner} {more : List ℕ}
    → All IsByte rest
    → decode_inner rest ≡ ok (inner, more)
    → (rest ≡ encode_inner inner ++ more) × (length inner.1 ≤ 65531) × All IsByte more
unfolding encode_inner
decode_inner_sound rest {inner} {more} bytes h =
    let (six, body) = decode_inner_inv rest h in
    let (four, fits, i, m) = decode_body_inv (from_be (take 2 rest)) (drop 2 rest) body in
    let len = from_be (take 2 rest) in
    let behind = drop 4 (drop 2 rest) in
    let size : length (take (len - 4) behind) ≡ len - 4 =
      omega
        (arith, length-take (len - 4) behind, length-drop 4 (drop 2 rest), length-drop 2 rest) in
    let small : len < 256 ^ 2 = word-lt 2 rest (omega arith) bytes in
    let whole : 4 + length (take (len - 4) behind) ≡ len = omega (arith, size) in
    let parts : rest
        ≡ encode_inner (from_be (take 4 (drop 2 rest)), take (len - 4) behind)
          ++ drop (len - 4) behind =
      rw (
        whole,
        rewrite_word 2 rest (omega arith) bytes,
        rewrite_word 4 (drop 2 rest) (omega arith) (All-drop IsByte 2 rest bytes),
        append_assoc (take 2 rest) (take 4 (drop 2 rest) ++ take (len - 4) behind)
            (drop (len - 4) behind),
        append_assoc (take 4 (drop 2 rest)) (take (len - 4) behind) (drop (len - 4) behind),
        take-append-drop (len - 4) behind,
        take-append-drop 4 (drop 2 rest),
        take-append-drop 2 rest,
      ) in
    rw (i, m)
      (
        parts,
        omega (arith, size, small),
        All-drop IsByte (len - 4) behind
            (All-drop IsByte 4 (drop 2 rest) (All-drop IsByte 2 rest bytes)),
      )

decode_loop_sound :
    (fuel : ℕ) (rest : List ℕ) (out : List BundleInner) {result : List BundleInner}
    → All IsByte rest
    → decode_loop fuel rest out ≡ some (ok result)
    → (inners : List BundleInner) × (result ≡ out ++ inners)
      × (rest ≡ written inners)
      × (all_short inners ≡ true)
unfolding decode_loop written
decode_loop_sound fuel [] out bytes h = ([], ground (arith, append-nil out), refl, refl)
decode_loop_sound zero (b ∷ bs) out bytes h = absurd (cc)
decode_loop_sound (suc fuel) (b ∷ bs) out {result = result} bytes h =
    elim (Result-cases (decode_inner (b ∷ bs))) [
      | inl ((inner, more), r) ↦
          let (whole, short, left) = decode_inner_sound (b ∷ bs) bytes r in
          let (inners, more_out, more_rest, fits) =
            decode_loop_sound fuel more (out ++ (inner ∷ [])) {result = result} left
              (rw (r, decode_loop) at h) in
          (
            inner ∷ inners,
            more_out ∙ append_assoc out (inner ∷ []) inners,
            whole ∙ ap (λ l. encode_inner inner ++ l) more_rest,
            ground (arith, short, fits),
          )
      | inr (x, r) ↦ absurd (cc (rw (r, decode_loop) at h))
    ]

accepted :
    (short tagged : Bool) (x y : DeserializeError) (seq : ℕ)
    (r : Option (Result DeserializeError (List BundleInner))) {s : ℕ} {inners : List BundleInner}
    → (if short then some (err x) else if tagged then with_seq seq r else some (err y))
      ≡ some (ok (s, inners))
    → (short ≡ false) × (tagged ≡ true) × (seq ≡ s) × (r ≡ some (ok inners))
accepted true tagged x y seq r h = absurd (cc)
accepted false false x y seq r h = absurd (cc)
accepted false true x y seq none h = absurd (cc)
accepted false true x y seq (some (err e)) h = absurd (cc)
accepted false true x y seq (some (ok l)) h = ground arith

decode_bundle_inv :
    (buf : List ℕ) {seq : ℕ} {inners : List BundleInner}
    → decode_bundle buf ≡ some (ok (seq, inners))
    → (12 ≤ length buf)
      × (from_be (take 4 buf) ≡ bundle_tag)
      × (from_be (take 8 (drop 4 buf)) ≡ seq)
      × (decode_loop (length buf) (drop 12 buf) [] ≡ some (ok inners))
unfolding decode_bundle
decode_bundle_inv buf h =
    let (long, tagged, s, r) =
      accepted (ltb (length buf) 12) (from_be (take 4 buf) == bundle_tag) truncated
        (wrong_tag (from_be (take 4 buf))) (from_be (take 8 (drop 4 buf)))
        (decode_loop (length buf) (drop 12 buf) []) h in
    (ltb_false→le (length buf) 12 long, (==_iff (from_be (take 4 buf)) bundle_tag).0 tagged, s, r)

-- What `decode_bundle` accepts, among buffers of bytes, is what `encode_bundle` writes for the
-- sequence number and the inner packets that it returns.
pub encode_bundle-decode_bundle :
    (buf : List ℕ) (seq : ℕ) (inners : List BundleInner)
    → All IsByte buf
    → decode_bundle buf ≡ some (ok (seq, inners))
    → encode_bundle seq inners ≡ ok buf
encode_bundle-decode_bundle buf seq inners bytes h =
    let (long, tag, number, loop) = decode_bundle_inv buf h in
    let (is, same, rest, short) =
      decode_loop_sound (length buf) (drop 12 buf) [] {result = inners}
        (All-drop IsByte 12 buf bytes) loop in
    let parts : buf ≡ to_be 4 bundle_tag ++ (to_be 8 seq ++ written is) = rw (
      ← tag,
      ← number,
      ← rest,
      rewrite_word 4 buf (omega arith) bytes,
      rewrite_word 8 (drop 4 buf) (omega (arith, length-drop 4 buf)) (All-drop IsByte 4 buf bytes),
      drop-drop 4 8 buf,
      take-append-drop 8 (drop 4 buf),
      take-append-drop 4 buf,
    ) in
    encode_bundle-written seq inners ∙ rw (same, short) (rw (← parts))
