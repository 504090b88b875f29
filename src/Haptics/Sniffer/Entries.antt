-- ===== src/Haptics/Sniffer/Entries.antt =====
-- crates/osc-haptics/src/sniffer.rs: the addresses of a table of entries, and the eviction of the oldest.
use everything_imu.Prelude.{
  ℕ, ◌≤◌, ◌<◌, List, [], ◌∷◌, Option, none, some, Bool, true, false, not, ltb, ◌≡◌, refl, sym, ◌∙◌,
  if◌then◌else◌, if_true, if_false, if_cases, Bool-cases, inl, inr, length, All, arith,
}
use everything_imu.Slices.{same}
use everything_imu.Maps.{retain, All-map}
use everything_imu.Haptics.Sniffer.{SnifferEntry, has_address, oldest_of, evict_oldest}

-- No two entries have one address.
abbrev pub IsDistinct : List SnifferEntry → Type 0
IsDistinct [] = Unit {0}
IsDistinct (e ∷ es) = (has_address e.address es ≡ false) × IsDistinct es

pub same_refl : (xs : List ℕ) → same xs xs ≡ true
same_refl [] = refl
same_refl (x ∷ xs) = ground (arith, same_refl xs)

length-retain :
    (p : SnifferEntry → Bool) (es : List SnifferEntry) → length (retain p es) ≤ length es
length-retain p [] = omega arith
length-retain p (e ∷ es) = ground (arith, length-retain p es)

-- Taking an address off shortens a list that has it.
length-without :
    (a : List ℕ) (es : List SnifferEntry)
    → has_address a es ≡ true
    → length (retain (λ f. not (same f.address a)) es) < length es
length-without a [] h = absurd (ground (arith, h))
length-without a (e ∷ es) h = elim (Bool-cases (same e.address a)) [
  | inl t ↦ rw t (omega (arith, length-retain (λ f. not (same f.address a)) es))
  | inr f ↦
      rw f (omega (arith, length-without a es (sym (if_false (same e.address a) true _ f) ∙ h)))
]

-- The oldest entry is one of the entries.
oldest_in :
    (best : SnifferEntry) (es all : List SnifferEntry)
    → has_address best.address all ≡ true
    → All (λ (e : SnifferEntry). has_address e.address all ≡ true) es
    → has_address (oldest_of best es).address all ≡ true
oldest_in best [] all h k = h
oldest_in best (e ∷ es) all h k =
    oldest_in (if ltb e.last_seen best.last_seen then e else best) es all
      (if_cases (λ (x : SnifferEntry). has_address x.address all ≡ true)
        (ltb e.last_seen best.last_seen) (λ t. k.0) (λ f. h))
      k.1

has_address_more :
    (a : List ℕ) (e : SnifferEntry) (es : List SnifferEntry)
    → has_address a es ≡ true
    → has_address a (e ∷ es) ≡ true
has_address_more a e es h = ground (arith, h)

All-has_address :
    (es : List SnifferEntry) → All (λ (e : SnifferEntry). has_address e.address es ≡ true) es
All-has_address [] = tt
All-has_address (e ∷ es) = (
  if_true (same e.address e.address) true _ (same_refl e.address),
  All-map es (λ f h. has_address_more f.address e es h) (All-has_address es),
)

pub length-evict_oldest :
    (es : List SnifferEntry) → 0 < length es → length (evict_oldest es) < length es
unfolding evict_oldest
length-evict_oldest [] h = absurd (omega arith)
length-evict_oldest (e ∷ es) h =
    length-without (oldest_of e es).address (e ∷ es)
      (oldest_in e es (e ∷ es) (All-has_address (e ∷ es)).0 (All-has_address (e ∷ es)).1)

-- What is not there stays away.
retain_lacks :
    (a : List ℕ) (p : SnifferEntry → Bool) (es : List SnifferEntry)
    → has_address a es ≡ false
    → has_address a (retain p es) ≡ false
retain_lacks a p [] h = refl
retain_lacks a p (e ∷ es) h = ground (arith, h, retain_lacks a p es)

retain-IsDistinct :
    (p : SnifferEntry → Bool) (es : List SnifferEntry) → IsDistinct es → IsDistinct (retain p es)
retain-IsDistinct p [] d = tt
retain-IsDistinct p (e ∷ es) d =
    if_cases IsDistinct (p e) (λ t. (retain_lacks e.address p es d.0, retain-IsDistinct p es d.1))
      (λ f. retain-IsDistinct p es d.1)

pub evict_oldest-IsDistinct :
    (es : List SnifferEntry) → IsDistinct es → IsDistinct (evict_oldest es)
unfolding evict_oldest
evict_oldest-IsDistinct [] d = tt
evict_oldest-IsDistinct (e ∷ es) d =
    retain-IsDistinct (λ f. not (same f.address (oldest_of e es).address)) (e ∷ es) d

pub evict_oldest_lacks :
    (a : List ℕ) (es : List SnifferEntry)
    → has_address a es ≡ false
    → has_address a (evict_oldest es) ≡ false
unfolding evict_oldest
evict_oldest_lacks a [] h = refl
evict_oldest_lacks a (e ∷ es) h =
    retain_lacks a (λ f. not (same f.address (oldest_of e es).address)) (e ∷ es) h

-- The entry of an address.
abbrev pub entry_of : List ℕ → List SnifferEntry → Option SnifferEntry
entry_of a [] = none
entry_of a (e ∷ es) = let rest = entry_of a es in if same e.address a then some e else rest
