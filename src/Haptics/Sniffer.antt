-- ===== src/Haptics/Sniffer.antt =====
-- crates/osc-haptics/src/sniffer.rs. An `f32` is its bit pattern; the hash map is a list of entries,
-- in the order of its iteration.
pub mod Entries
pub mod Bounded
use everything_imu.Prelude.{
  ℕ, ◌+◌, ◌-◌, ◌^◌, min, max, List, [], ◌∷◌, Bool, true, false, not, ltb, leb, if◌then◌else◌,
  length,
}
use everything_imu.Slices.{same}
use everything_imu.Maps.{retain}
use everything_imu.Haptics.Mapping.{Floats}

pub record SnifferEntry : Type 0 where
  pub address : List ℕ
  pub count : ℕ
  pub min_value : ℕ
  pub max_value : ℕ
  pub latest_value : ℕ
  pub last_seen : ℕ

pub record Sniffer : Type 0 where
  pub entries : List SnifferEntry
  pub room : ℕ

unfoldable pub new_sniffer : ℕ → Sniffer
new_sniffer room = record { entries = []; room = max room 1 }

abbrev pub has_address : List ℕ → List SnifferEntry → Bool
has_address a [] = false
has_address a (e ∷ es) = if same e.address a then true else has_address a es

-- The first of the entries that were seen longest ago.
abbrev oldest_of : SnifferEntry → List SnifferEntry → SnifferEntry
oldest_of best [] = best
oldest_of best (e ∷ es) = oldest_of (if ltb e.last_seen best.last_seen then e else best) es

pub evict_oldest : List SnifferEntry → List SnifferEntry
evict_oldest [] = []
evict_oldest (e ∷ es) = retain (λ f. not (same f.address (oldest_of e es).address)) (e ∷ es)

unfoldable pub clear : Sniffer → Sniffer
clear s = record s { entries = [] }

module _ (fl : Floats) where
  -- The update of an entry that is there.
  abbrev pub seen_again : ℕ → ℕ → SnifferEntry → SnifferEntry
  seen_again value now e = record e {
    count = min (e.count + 1) (2 ^ 64 - 1);
    latest_value = value;
    min_value = if fl.lt value e.min_value then value else e.min_value;
    max_value = if fl.lt e.max_value value then value else e.max_value;
    last_seen = now;
  }

  abbrev pub change_entry :
      List ℕ → (SnifferEntry → SnifferEntry) → List SnifferEntry → List SnifferEntry
  change_entry a f [] = []
  change_entry a f (e ∷ es) = (if same e.address a then f e else e) ∷ change_entry a f es

  abbrev pub first_entry : List ℕ → ℕ → ℕ → SnifferEntry
  first_entry address value now = record {
    address = address;
    count = 1;
    min_value = value;
    max_value = value;
    latest_value = value;
    last_seen = now;
  }

  unfoldable pub ingest : Sniffer → List ℕ → ℕ → ℕ → Sniffer
  unfolding evict_oldest
  ingest s address value now =
      let space = if leb s.room (length s.entries) then evict_oldest s.entries else s.entries in
      if has_address address s.entries
      then record s { entries = change_entry address (seen_again value now) s.entries }
      else record s { entries = first_entry address value now ∷ space }
