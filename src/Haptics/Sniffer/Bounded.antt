-- ===== src/Haptics/Sniffer/Bounded.antt =====
-- crates/osc-haptics/src/sniffer.rs: the table stays within its room, with one entry an address.
use everything_imu.Prelude.{
  ℕ, suc, ◌≤◌, ◌<◌, max, List, [], ◌∷◌, some, true, false, leb, ◌≡◌, refl, sym, ap, ◌∙◌,
  if◌then◌else◌, if_true, if_false, if_cases, Bool-cases, inl, inr, length, arith,
}
use mathlib.Core.Path.{subst}
use everything_imu.Slices.{same}
use everything_imu.Haptics.Mapping.{Floats}
use everything_imu.Haptics.Sniffer.{
  SnifferEntry, Sniffer, new_sniffer, has_address, evict_oldest, seen_again, change_entry,
  first_entry, ingest,
}
use everything_imu.Haptics.Sniffer.Entries.{
  IsDistinct, entry_of, same_refl, length-evict_oldest, evict_oldest-IsDistinct, evict_oldest_lacks,
}

module _ (fl : Floats) where
  length-change_entry :
      (a : List ℕ) (f : SnifferEntry → SnifferEntry) (es : List SnifferEntry)
      → length (change_entry fl a f es) ≡ length es
  length-change_entry a f [] = refl
  length-change_entry a f (e ∷ es) = ap suc (length-change_entry a f es)

  changed_address :
      (a : List ℕ) (value now : ℕ) (e : SnifferEntry)
      → (if same e.address a then seen_again fl value now e else e).address ≡ e.address
  changed_address a value now e =
      if_cases (λ (x : SnifferEntry). x.address ≡ e.address) (same e.address a) (λ t. refl)
        (λ f. refl)

  has_address-change_entry :
      (b a : List ℕ) (value now : ℕ) (es : List SnifferEntry)
      → has_address b (change_entry fl a (seen_again fl value now) es) ≡ has_address b es
  has_address-change_entry b a value now [] = refl
  has_address-change_entry b a value now (e ∷ es) =
      rw (changed_address a value now e, has_address-change_entry b a value now es)

  change_entry-IsDistinct :
      (a : List ℕ) (value now : ℕ) (es : List SnifferEntry)
      → IsDistinct es
      → IsDistinct (change_entry fl a (seen_again fl value now) es)
  change_entry-IsDistinct a value now [] d = tt
  change_entry-IsDistinct a value now (e ∷ es) d = (
    rw (changed_address a value now e, has_address-change_entry e.address a value now es) d.0,
    change_entry-IsDistinct a value now es d.1,
  )

  -- What an `ingest` says of its address afterwards.
  abbrev pub IsLatest : List ℕ → ℕ → ℕ → List SnifferEntry → Type 0
  IsLatest a value now es =
      (e : SnifferEntry) × (entry_of a es ≡ some e) × (e.latest_value ≡ value) × (e.last_seen ≡ now)

  change_entry-IsLatest :
      (a : List ℕ) (value now : ℕ) (es : List SnifferEntry)
      → has_address a es ≡ true
      → IsLatest a value now (change_entry fl a (seen_again fl value now) es)
  change_entry-IsLatest a value now [] h = absurd (ground (arith, h))
  change_entry-IsLatest a value now (e ∷ es) h = elim (Bool-cases (same e.address a)) [
    | inl t ↦ (seen_again fl value now e, rw t (rw t), refl, refl)
    | inr f ↦
        let (x, found, v, n) =
          change_entry-IsLatest a value now es (sym (if_false (same e.address a) true _ f) ∙ h) in
        (x, rw f (rw f found), v, n)
  ]

  pub record IsBounded (room : ℕ) (s : Sniffer) : Type 0 where
    pub has_room : s.room ≡ room
    pub within : length s.entries ≤ room
    pub distinct : IsDistinct s.entries

  -- The entries once there is space for another one.
  abbrev space : Sniffer → List SnifferEntry
  space s = if leb s.room (length s.entries) then evict_oldest s.entries else s.entries

  space_within :
      (s : Sniffer) → 0 < s.room → length s.entries ≤ s.room → suc (length (space s)) ≤ s.room
  space_within s pos h =
      if_cases (λ es. suc (length es) ≤ s.room) (leb s.room (length s.entries))
        (λ t. omega (arith, length-evict_oldest s.entries (full t), h)) (λ f. roomy f)
    where
      full : leb s.room (length s.entries) ≡ true → 0 < length s.entries
      full t = ground arith

      roomy : leb s.room (length s.entries) ≡ false → suc (length s.entries) ≤ s.room
      roomy f = ground arith

  space_lacks :
      (s : Sniffer) (a : List ℕ)
      → has_address a s.entries ≡ false
      → IsDistinct s.entries
      → (has_address a (space s) ≡ false) × IsDistinct (space s)
  space_lacks s a h d =
      if_cases (λ es. (has_address a es ≡ false) × IsDistinct es) (leb s.room (length s.entries))
        (λ t. (evict_oldest_lacks a s.entries h, evict_oldest-IsDistinct s.entries d)) (λ f. (h, d))

  ingest_cases :
      (s : Sniffer) (a : List ℕ) (value now : ℕ)
      → 0 < s.room
      → IsBounded s.room s
      → IsBounded s.room (ingest fl s a value now)
        × IsLatest a value now (ingest fl s a value now).entries
  unfolding ingest
  ingest_cases s a value now pos b = elim (Bool-cases (has_address a s.entries)) [
    | inl t ↦ rw t (
      record {
        has_room = refl;
        within = omega (arith, length-change_entry a (seen_again fl value now) s.entries, b.within);
        distinct = change_entry-IsDistinct a value now s.entries b.distinct;
      },
      change_entry-IsLatest a value now s.entries t,
    )
    | inr f ↦ rw f (
      record {
        has_room = refl;
        within = space_within s pos b.within;
        distinct = space_lacks s a f b.distinct;
      },
      (first_entry fl a value now, if_true (same a a) _ _ (same_refl a), refl, refl),
    )
  ]

  unfoldable pub ingested : Sniffer → List (List ℕ × (ℕ × ℕ)) → Sniffer
  ingested s [] = s
  ingested s ((a, (value, now)) ∷ calls) = ingested (ingest fl s a value now) calls

  ingest-IsBounded :
      (room : ℕ) (s : Sniffer) (a : List ℕ) (value now : ℕ)
      → 0 < room
      → IsBounded room s
      → IsBounded room (ingest fl s a value now)
        × IsLatest a value now (ingest fl s a value now).entries
  ingest-IsBounded room s a value now pos b =
      subst
        (λ r.
          IsBounded r (ingest fl s a value now)
          × IsLatest a value now (ingest fl s a value now).entries)
        b.has_room
        (ingest_cases s a value now (omega (arith, b.has_room))
          (subst (λ r. IsBounded r s) (sym b.has_room) b))

  ingested-IsBounded :
      (room : ℕ) (s : Sniffer) (calls : List (List ℕ × (ℕ × ℕ)))
      → 0 < room
      → IsBounded room s
      → IsBounded room (ingested s calls)
  unfolding ingested
  ingested-IsBounded room s [] pos b = b
  ingested-IsBounded room s ((a, (value, now)) ∷ calls) pos b =
      ingested-IsBounded room (ingest fl s a value now) calls pos
        (ingest-IsBounded room s a value now pos b).0

  -- After any calls of `ingest` and one more, a sniffer made for `room` addresses holds at most that
  -- many entries (at least one), no two of one address, and under the last address an entry whose
  -- latest value and time are those of the last call.
  pub ingested-ingest :
      (room : ℕ) (calls : List (List ℕ × (ℕ × ℕ))) (a : List ℕ) (value now : ℕ)
      → let s = ingest fl (ingested (new_sniffer room) calls) a value now in
        (length s.entries ≤ max room 1) × IsDistinct s.entries × IsLatest a value now s.entries
  unfolding new_sniffer
  ingested-ingest room calls a value now =
      let pos : 0 < max room 1 = omega arith in
      let (b, l) =
        ingest-IsBounded (max room 1) (ingested (new_sniffer room) calls) a value now pos (
          ingested-IsBounded (max room 1) (new_sniffer room) calls pos
            (record { has_room = refl; within = omega arith; distinct = tt })) in
      (b.within, b.distinct, l)
