-- ===== src/Hopx/Protocol/Cut.antt =====
-- crates/device-hopx/src/protocol.rs: a front part of a stream of records.
use everything_imu.Prelude.{
  ℕ, ◌<◌, List, [], ◌∷◌, ◌++◌, ltb, ◌≡◌, refl, sym, ap, ◌∙◌, Bool-cases, inl, inr, length, take,
  drop, All, arith, append_assoc, take-append_le, drop-append_le, take-append-drop, ltb→lt,
  ltb_false→le,
}
use mathlib.Core.Path.{ap₂}
use everything_imu.Hopx.Protocol.{record_len}
use everything_imu.Hopx.Protocol.Drain.{IsFramed, IsChunk, IsPartial}
use everything_imu.Hopx.Protocol.Chunks.{concat, behind_chunk, front_chunk}

-- A front part of a stream of records: whole records, and the beginning of one.
pub record Cut (xs ys : List ℕ) (cs : List (List ℕ)) : Type 0 where
  pub whole : List (List ℕ)
  pub behind : List (List ℕ)
  pub begun : List ℕ
  pub front : xs ≡ concat whole ++ begun
  pub back : begun ++ ys ≡ concat behind
  pub parts : cs ≡ whole ++ behind
  pub whole_chunks : All IsChunk whole
  pub behind_chunks : All IsChunk behind
  pub partial : IsPartial begun

begins-IsPartial :
    (xs ys c r : List ℕ) → xs ++ ys ≡ c ++ r → IsFramed c → length xs < record_len → IsPartial xs
begins-IsPartial [] ys c r e f h = tt
begins-IsPartial (x ∷ xs) ys [] r e f h = absurd f
begins-IsPartial (x ∷ xs) ys (b ∷ bs) r e f h = (ground (arith, e, f), h)

pub cut :
    (cs : List (List ℕ)) (xs ys : List ℕ) → All IsChunk cs → xs ++ ys ≡ concat cs → Cut xs ys cs
cut [] [] ys a e = record {
  whole = [];
  behind = [];
  begun = [];
  front = refl;
  back = e;
  parts = refl;
  whole_chunks = tt;
  behind_chunks = tt;
  partial = tt;
}
cut [] (x ∷ xs) ys a e = absurd (ground (arith, e))
cut (c ∷ cs) xs ys a e = elim (Bool-cases (ltb (length xs) record_len)) [
  | inl short ↦ record {
    whole = [];
    behind = c ∷ cs;
    begun = xs;
    front = refl;
    back = e;
    parts = refl;
    whole_chunks = tt;
    behind_chunks = a;
    partial = begins-IsPartial xs ys c (concat cs) e a.0.1 (ltb→lt _ _ short);
  }
  | inr long ↦
      let le = ltb_false→le (length xs) record_len long in
      let rest = cut cs (drop record_len xs) ys a.1 (
        sym (drop-append_le record_len xs ys le)
        ∙ ap (drop record_len) e
        ∙ behind_chunk c (concat cs) a.0) in
      let first : take record_len xs ≡ c =
        sym (take-append_le record_len xs ys le)
        ∙ ap (take record_len) e
        ∙ front_chunk c (concat cs) a.0 in
      record {
        whole = c ∷ rest.whole;
        behind = rest.behind;
        begun = rest.begun;
        front =
            sym (take-append-drop record_len xs)
            ∙ ap₂ ◌++◌ first rest.front
            ∙ sym (append_assoc c (concat rest.whole) rest.begun);
        back = rest.back;
        parts = ap (λ l. c ∷ l) rest.parts;
        whole_chunks = (a.0, rest.whole_chunks);
        behind_chunks = rest.behind_chunks;
        partial = rest.partial;
      }
]
