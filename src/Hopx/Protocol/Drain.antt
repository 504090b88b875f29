-- ===== src/Hopx/Protocol/Drain.antt =====
-- crates/device-hopx/src/protocol.rs: the loop that drains the buffer ends, whatever the bytes.
use everything_imu.Prelude.{
  ℕ, zero, suc, ◌≤◌, ◌<◌, List, [], ◌∷◌, ◌++◌, Option, some, Bool, true, false, ltb, ◌==◌, ==_iff,
  ◌≡◌, refl, sym, ap, ◌∙◌, if_true, if_false, Bool-cases, Option-cases, inl, inr, length, take,
  drop, All, arith, length-take, length-drop, ltb→lt, ltb_false→le,
}
use mathlib.Core.Path.{subst}
use everything_imu.Maps.{some-injective}
use everything_imu.Hopx.Protocol.{
  frame_marker, record_len, from_marker, is_false_marker, put_chunk, drain_loop, drain_chunks,
  RecordParser,
}

-- It begins with the marker.
abbrev pub IsFramed : List ℕ → Type 0
IsFramed [] = ⊥
IsFramed (b ∷ bs) = b ≡ frame_marker

abbrev pub IsChunk : List ℕ → Type 0
IsChunk c = (length c ≡ record_len) × IsFramed c

-- The beginning of a chunk, or nothing.
abbrev pub IsPartial : List ℕ → Type 0
IsPartial [] = Unit {0}
IsPartial (b ∷ bs) = (b ≡ frame_marker) × (length (b ∷ bs) < record_len)

from_marker_lem :
    (bs : List ℕ) {b : List ℕ} → from_marker bs ≡ some b → IsFramed b × (length b ≤ length bs)
from_marker_lem [] h = absurd (ground (arith, h))
from_marker_lem (x ∷ bs) {b} h = elim (Bool-cases (x == frame_marker)) [
  | inl t ↦
      subst (λ c. IsFramed c × (length c ≤ suc (length bs)))
        (some-injective (sym (if_true (x == frame_marker) (some (x ∷ bs)) (from_marker bs) t) ∙ h))
        ((==_iff x frame_marker).0 t, omega arith)
  | inr f ↦
      let rest = from_marker_lem bs (sym (if_false (x == frame_marker) (some (x ∷ bs)) _ f) ∙ h) in
      (rest.0, omega (arith, rest.1))
]

take-IsChunk : (b : List ℕ) → IsFramed b → record_len ≤ length b → IsChunk (take record_len b)
take-IsChunk [] h k = absurd h
take-IsChunk (x ∷ xs) h k = (omega (arith, length-take record_len (x ∷ xs)), h)

-- What the loop gives.
abbrev pub Drains : Option (List (List ℕ) × List ℕ) → Type 0
Drains r =
    (chunks : List (List ℕ)) × (rest : List ℕ) × (r ≡ some (chunks, rest))
    × All IsChunk chunks
    × IsPartial rest

partial : (b : List ℕ) → IsFramed b → length b < record_len → IsPartial b
partial [] h k = tt
partial (x ∷ xs) h k = (h, k)

put-Drains :
    (c : List ℕ) (r : Option (List (List ℕ) × List ℕ))
    → IsChunk c
    → Drains r
    → Drains (put_chunk c r)
put-Drains c r h (chunks, rest, e, all, p) = (c ∷ chunks, rest, ap (put_chunk c) e, (h, all), p)

-- What holds of both cases of a test holds of the test.
by_test :
    (b : Bool) (x y : Option (List (List ℕ) × List ℕ))
    → (b ≡ true → Drains x)
    → (b ≡ false → Drains y)
    → Drains (elim b [ true ↦ x | false ↦ y ])
by_test true x y h k = h refl
by_test false x y h k = k refl

shorter :
    (fuel : ℕ) (buf b : List ℕ) (n : ℕ)
    → length buf < suc fuel
    → length b ≤ length buf
    → 0 < n
    → record_len ≤ length b
    → length (drop n b) < fuel
shorter fuel buf b n h k pos long = omega (arith, length-drop n b)

drain-Drains : (fuel : ℕ) (buf : List ℕ) → length buf < fuel → Drains (drain_loop fuel buf)
unfolding drain_loop
drain-Drains zero buf h = absurd (omega arith)
drain-Drains (suc fuel) buf h = elim (Option-cases (from_marker buf)) [
  | inl e ↦ rw (e, drain_loop) ([], [], refl, tt, tt)
  | inr (b, e) ↦
      rw (e, drain_loop)
        (by_test (ltb (length b) record_len) _ _
          (λ short. ([], b, refl, tt, partial b (from_marker_lem buf e).0 (ltb→lt _ _ short)))
          (λ long.
            by_test (is_false_marker b) _ _
              (λ payload. drain-Drains fuel (drop 1 b) (
                shorter fuel buf b 1 h (from_marker_lem buf e).1 (omega arith)
                  (ltb_false→le _ _ long)))
              (λ framed.
                put-Drains (take record_len b) (drain_loop fuel (drop record_len b))
                  (take-IsChunk b (from_marker_lem buf e).0 (ltb_false→le _ _ long))
                  (drain-Drains fuel (drop record_len b) (
                    shorter fuel buf b record_len h (from_marker_lem buf e).1 (omega arith)
                      (ltb_false→le _ _ long))))))
]

-- Whatever is in the buffer and comes in, the loop of `drain_chunks` ends; it gives chunks of 14
-- bytes that begin with the marker, and keeps nothing or fewer than 14 bytes that begin with it.
pub drain_chunks-Returns :
    (p : RecordParser) (bytes : List ℕ)
    → (chunks : List (List ℕ)) × (p' : RecordParser) × (drain_chunks p bytes ≡ some (chunks, p'))
      × All IsChunk chunks
      × IsPartial p'.buf
unfolding drain_chunks
drain_chunks-Returns p bytes =
    let (chunks, rest, e, all, q) =
      drain-Drains (suc (length (p.buf ++ bytes))) (p.buf ++ bytes) (omega arith) in
    (chunks, record { buf = rest }, rw e, all, q)
