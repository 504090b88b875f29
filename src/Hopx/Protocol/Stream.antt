-- ===== src/Hopx/Protocol/Stream.antt =====
-- crates/device-hopx/src/protocol.rs: the records of a stream, however it is cut into notifications.
use everything_imu.Prelude.{
  ℕ, suc, ◌+◌, ◌<◌, ◌^◌, List, [], ◌∷◌, ◌++◌, map, Option, none, some, ◌≡◌, refl, sym, ap, ◌∙◌,
  length, drop, All, arith, append_assoc, append-nil, length-append, to_le, from_le,
}
use mathlib.Core.List.{map-append}
use mathlib.Core.Path.{subst, ap₂}
use everything_imu.Slices.{◌>>=◌, >>=_step}
use everything_imu.Hopx.Protocol.{
  frame_marker, record_len, drain_chunks, RecordParser, new_parser, RawRecord, parse_raw,
  parse_each, feed_raw,
}
use everything_imu.Hopx.Protocol.Drain.{IsChunk, IsPartial}
use everything_imu.Hopx.Protocol.Chunks.{concat, drain_chunks_lem}
use everything_imu.Hopx.Protocol.Cut.{cut}
use everything_imu.Maps.{some-injective}
use everything_imu.Prelude.{◌%◌, ◌*◌, ◌/◌}

-- A record of the tracker: its number and six channels.
pub record Sample : Type 0 where
  pub seq : ℕ
  pub x0 : ℕ
  pub x1 : ℕ
  pub x2 : ℕ
  pub x3 : ℕ
  pub x4 : ℕ
  pub x5 : ℕ

abbrev pub IsSample : Sample → Type 0
IsSample s =
    (s.x0 < 2 ^ 16)
    × (s.x1 < 2 ^ 16)
    × (s.x2 < 2 ^ 16)
    × (s.x3 < 2 ^ 16)
    × (s.x4 < 2 ^ 16)
    × (s.x5 < 2 ^ 16)

-- As the tracker sends it, and as `parse_raw` gives it.
unfoldable pub wire : Sample → List ℕ
unfolding to_le
wire s =
    frame_marker
    ∷ s.seq
    ∷ (to_le 2 s.x0
        ++ (to_le 2 s.x1 ++ (to_le 2 s.x2 ++ (to_le 2 s.x3 ++ (to_le 2 s.x4 ++ to_le 2 s.x5)))))

abbrev pub raw : Sample → RawRecord
raw s = record { seq = s.seq; channels = s.x0 ∷ s.x1 ∷ s.x2 ∷ s.x3 ∷ s.x4 ∷ s.x5 ∷ [] }

wire-IsChunk : (s : Sample) → IsChunk (wire s)
unfolding wire to_le
wire-IsChunk s = (refl, refl)

parse_raw-wire : (s : Sample) → IsSample s → parse_raw (wire s) ≡ some (raw s)
unfolding parse_raw wire to_le from_le
parse_raw-wire s (h0, h1, h2, h3, h4, h5) =
    rw (word s.x0 h0, word s.x1 h1, word s.x2 h2, word s.x3 h3, word s.x4 h4, word s.x5 h5)
  where
    word : (x : ℕ) → x < 2 ^ 16 → x % 256 + 256 * (x / 256 % 256 + 0) ≡ x
    word x h = omega arith

map-IsChunk : (ss : List Sample) → All IsChunk (map wire ss)
map-IsChunk [] = tt
map-IsChunk (s ∷ ss) = (wire-IsChunk s, map-IsChunk ss)

parse_each-wire :
    (ss : List Sample) → All IsSample ss → parse_each parse_raw (map wire ss) ≡ some (map raw ss)
parse_each-wire [] h = refl
parse_each-wire (s ∷ ss) h = rw (parse_raw-wire s h.0, parse_each-wire ss h.1)

-- Which of the records have come as a whole.
record Split (ss : List Sample) (xs ys : List (List ℕ)) : Type 0 where
  come : List Sample
  left : List Sample
  all : ss ≡ come ++ left
  come_wire : map wire come ≡ xs
  left_wire : map wire left ≡ ys

Split-map : (ss : List Sample) (xs ys : List (List ℕ)) → map wire ss ≡ xs ++ ys → Split ss xs ys
Split-map ss [] ys e = record { come = []; left = ss; all = refl; come_wire = refl; left_wire = e }
Split-map [] (x ∷ xs) ys e = absurd (ground (arith, e))
Split-map (s ∷ ss) (x ∷ xs) ys e =
    let r = Split-map ss xs ys (ap (drop 1) e) in
    record {
      come = s ∷ r.come;
      left = r.left;
      all = ap (λ l. s ∷ l) r.all;
      come_wire = ap₂ ◌∷◌ (some-injective (ap first e)) r.come_wire;
      left_wire = r.left_wire;
    }
  where
    first : List (List ℕ) → Option (List ℕ)
    first [] = none
    first (x ∷ xs) = some x

-- What the parser gives for notifications one after the other.
unfoldable pub feed_all : RecordParser → List (List ℕ) → Option (List RawRecord × RecordParser)
feed_all p [] = some ([], p)
feed_all p (d ∷ ds) = do
  (rs, p') ← feed_raw p d
  (more, last) ← feed_all p' ds
  some (rs ++ more, last)

abbrev Holding : List ℕ → RecordParser
Holding q = record { buf = q }

feed_whole :
    (q d begun : List ℕ) (come : List Sample)
    → All IsSample come
    → IsPartial begun
    → q ++ d ≡ concat (map wire come) ++ begun
    → feed_raw (Holding q) d ≡ some (map raw come, Holding begun)
unfolding feed_raw drain_chunks
feed_whole q d begun come h p e = rw (
  e,
  drain_chunks_lem (suc (length (concat (map wire come) ++ begun))) (map wire come) begun
      (map-IsChunk come) p (omega arith),
  parse_each-wire come h,
)

All-front : (xs ys : List Sample) → All IsSample (xs ++ ys) → All IsSample xs × All IsSample ys
All-front [] ys h = (tt, h)
All-front (x ∷ xs) ys h = let r = All-front xs ys h.1 in ((h.0, r.0), r.1)

nothing_left :
    (q : List ℕ) (ss : List Sample)
    → IsPartial q
    → q ++ [] ≡ concat (map wire ss)
    → (ss ≡ []) × (q ≡ [])
nothing_left q [] p e = (refl, sym (append-nil q) ∙ e)
nothing_left q (s ∷ ss) p e = absurd (
    omega (
      arith,
      short q p,
      length-append q [],
      ap length e,
      length-append (wire s) (concat (map wire ss)),
      (wire-IsChunk s).0,
    ))
  where
    short : (q : List ℕ) → IsPartial q → length q < record_len
    short [] p = omega arith
    short (b ∷ bs) p = p.1

feed_from :
    (ds : List (List ℕ)) (q : List ℕ) (ss : List Sample)
    → All IsSample ss
    → IsPartial q
    → q ++ concat ds ≡ concat (map wire ss)
    → feed_all (Holding q) ds ≡ some (map raw ss, new_parser)
unfolding feed_all
feed_from [] q ss h p e =
    let (none_left, empty) = nothing_left q ss p e in
    ap₂ (λ l b. some (map raw l, Holding b)) (sym none_left) empty
feed_from (d ∷ ds) q ss h p e =
    let c =
      cut (map wire ss) (q ++ d) (concat ds) (map-IsChunk ss) (append_assoc q d (concat ds) ∙ e) in
    let r = Split-map ss c.whole c.behind c.parts in
    let hs = All-front r.come r.left (subst (All IsSample) r.all h) in
    let now =
      feed_whole q d c.begun r.come hs.0 c.partial
        (c.front ∙ ap (λ w. concat w ++ c.begun) (sym r.come_wire)) in
    let later = feed_from ds c.begun r.left hs.1 c.partial (c.back ∙ ap concat (sym r.left_wire)) in
    >>=_step (feed_raw (Holding q) d) _ now (
      >>=_step (feed_all (Holding c.begun) ds) _ later (
        ap (λ l. some (l, new_parser))
          (sym (map-append raw r.come r.left) ∙ ap (map raw) (sym r.all))))

-- A stream of records whose channels are 16-bit words, sent in notifications of any sizes, is read
-- by `feed_raw` of a new parser as exactly these records in their order, and nothing is left in the
-- buffer.
pub feed_all-wire :
    (ss : List Sample) (notifications : List (List ℕ))
    → All IsSample ss
    → concat notifications ≡ concat (map wire ss)
    → feed_all new_parser notifications ≡ some (map raw ss, new_parser)
feed_all-wire ss notifications h e = feed_from notifications [] ss h tt e
