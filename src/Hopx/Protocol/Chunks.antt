-- ===== src/Hopx/Protocol/Chunks.antt =====
-- crates/device-hopx/src/protocol.rs: a buffer of whole records and the beginning of one.
use everything_imu.Prelude.{
  ℕ, zero, suc, ◌<◌, List, [], ◌∷◌, ◌++◌, some, Bool, true, false, ltb, ◌==◌, ==_iff, not, ◌&&◌,
  ◌≡◌, refl, sym, ap, ◌∙◌, if_true, length, take, drop, All, arith, append_assoc, length-append,
  take-append, drop-append, lt→ltb, le→ltb_false,
}
use everything_imu.Hopx.Protocol.{
  frame_marker, alt_marker, record_len, from_marker, is_false_marker, put_chunk, drain_loop,
}
use everything_imu.Hopx.Protocol.Drain.{IsFramed, IsChunk, IsPartial}

abbrev pub concat : List (List ℕ) → List ℕ
concat [] = []
concat (c ∷ cs) = c ++ concat cs

module _ {A : Type 0} where
  elim_true : (b : Bool) (x y : A) → b ≡ true → (elim b [ true ↦ x | false ↦ y ]) ≡ x
  elim_true true x y h = refl
  elim_true false x y h = absurd (ground (arith, h))

  elim_false : (b : Bool) (x y : A) → b ≡ false → (elim b [ true ↦ x | false ↦ y ]) ≡ y
  elim_false true x y h = absurd (ground (arith, h))
  elim_false false x y h = refl

from_marker_framed : (b : List ℕ) → IsFramed b → from_marker b ≡ some b
from_marker_framed [] h = absurd h
from_marker_framed (x ∷ bs) h =
    if_true (x == frame_marker) (some (x ∷ bs)) (from_marker bs) ((==_iff x frame_marker).1 h)

-- A partial record as what is left, and nothing behind it.
drain_partial : (fuel : ℕ) (q : List ℕ) → 0 < fuel → IsPartial q → drain_loop fuel q ≡ some ([], q)
unfolding drain_loop
drain_partial zero q h p = absurd (omega arith)
drain_partial (suc fuel) [] h p = refl
drain_partial (suc fuel) (b ∷ bs) h (m, short) =
    rw (from_marker_framed (b ∷ bs) m, drain_loop)
      (elim_true (ltb (length (b ∷ bs)) record_len) _ _ (lt→ltb _ _ short))

-- What stands behind a record is nothing or begins with the marker.
abbrev IsOpen : List ℕ → Type 0
IsOpen [] = Unit {0}
IsOpen (b ∷ bs) = b ≡ frame_marker

concat-IsOpen :
    (cs : List (List ℕ)) (q : List ℕ) → All IsChunk cs → IsPartial q → IsOpen (concat cs ++ q)
concat-IsOpen [] [] a p = tt
concat-IsOpen [] (b ∷ bs) a p = p.0
concat-IsOpen ([] ∷ cs) q a p = absurd (a.0.1)
concat-IsOpen ((b ∷ bs) ∷ cs) q a p = a.0.1

pub behind_chunk : (c ys : List ℕ) → IsChunk c → drop record_len (c ++ ys) ≡ ys
behind_chunk c ys h = ap (λ n. drop n (c ++ ys)) (sym h.0) ∙ drop-append c ys

pub front_chunk : (c ys : List ℕ) → IsChunk c → take record_len (c ++ ys) ≡ c
front_chunk c ys h = ap (λ n. take n (c ++ ys)) (sym h.0) ∙ take-append c ys

no_false_marker : (c ys : List ℕ) → IsChunk c → IsOpen ys → is_false_marker (c ++ ys) ≡ false
no_false_marker c ys h o = ap is_marker (behind_chunk c ys h) ∙ no_marker ys o
  where
    is_marker : List ℕ → Bool
    is_marker r = elim r [
      | [] ↦ false
      | next ∷ more ↦ not (next == frame_marker) && not (next == alt_marker)
    ]

    no_marker : (ys : List ℕ) → IsOpen ys → is_marker ys ≡ false
    no_marker [] o = refl
    no_marker (b ∷ bs) o = ground (arith, o)

-- One record in front of the rest.
drain_chunk :
    (fuel : ℕ) (c ys : List ℕ)
    → IsChunk c
    → IsOpen ys
    → drain_loop (suc fuel) (c ++ ys) ≡ put_chunk c (drain_loop fuel ys)
unfolding drain_loop
drain_chunk fuel c ys h o =
    rw (from_marker_framed (c ++ ys) (framed c h), drain_loop)
      (elim_false (ltb (length (c ++ ys)) record_len) _ _
          (le→ltb_false _ _ (omega (arith, length-append c ys, h.0)))
        ∙ elim_false (is_false_marker (c ++ ys)) _ _ (no_false_marker c ys h o)
        ∙ rw (front_chunk c ys h, behind_chunk c ys h))
  where
    framed : (c : List ℕ) → IsChunk c → IsFramed (c ++ ys)
    framed [] h = absurd h.1
    framed (b ∷ bs) h = h.1

pub drain_chunks_lem :
    (fuel : ℕ) (cs : List (List ℕ)) (q : List ℕ)
    → All IsChunk cs
    → IsPartial q
    → length (concat cs ++ q) < fuel
    → drain_loop fuel (concat cs ++ q) ≡ some (cs, q)
drain_chunks_lem fuel [] q a p h = drain_partial fuel q (omega arith) p
drain_chunks_lem zero (c ∷ cs) q a p h = absurd (omega arith)
drain_chunks_lem (suc fuel) (c ∷ cs) q a p h =
    ap (drain_loop (suc fuel)) (append_assoc c (concat cs) q)
    ∙ drain_chunk fuel c (concat cs ++ q) a.0 (concat-IsOpen cs q a.1 p)
    ∙ ap (put_chunk c) (
        drain_chunks_lem fuel cs q a.1 p (
          omega (
            arith,
            length-append (c ++ concat cs) q,
            length-append c (concat cs),
            length-append (concat cs) q,
            a.0.0,
          )))
