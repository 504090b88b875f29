-- ===== src/Haptics/Config/Idempotent.antt =====
-- crates/osc-haptics/src/config.rs: a normalised address stays as it is.
use everything_imu.Prelude.{
  ℕ, List, [], ◌∷◌, ◌++◌, false, ◌==◌, map, ◌≡◌, refl, ap, ◌∙◌, Bool-cases, inl, inr, if_true,
  if_false, if_cases,
}
use mathlib.Core.Path.{ap₂}
use everything_imu.Haptics.Mapping.{HapticRule}
use everything_imu.Haptics.Config.{
  is_whitespace, trim_start, kept, trim_end, trim, vrchat_param_prefix, prefixed, normalize_address,
  normalize, HapticConfig, normalize_rules,
}

-- An address that is empty, or starts with no white space and keeps its end.
abbrev IsTrimmed : List ℕ → Type 0
IsTrimmed s = (trim_start s ≡ s) × (trim_end s ≡ s)

trim_end-kept : (c : ℕ) (ds : List ℕ) → trim_end ds ≡ ds → trim_end (kept c ds) ≡ kept c ds
trim_end-kept c [] h =
    if_cases (λ s. trim_end s ≡ s) (is_whitespace c) (λ t. refl)
      (λ f. if_false (is_whitespace c) [] (c ∷ []) f)
trim_end-kept c (d ∷ ds) h = ap (kept c) h

trim_end-trim_end : (s : List ℕ) → trim_end (trim_end s) ≡ trim_end s
trim_end-trim_end [] = refl
trim_end-trim_end (c ∷ cs) = trim_end-kept c (trim_end cs) (trim_end-trim_end cs)

-- Taking white space off the end does not bring any to the front.
trim_start-kept :
    (c : ℕ) (ds : List ℕ) → is_whitespace c ≡ false → trim_start (kept c ds) ≡ kept c ds
trim_start-kept c [] h = rw h (rw h refl)
trim_start-kept c (d ∷ ds) h = rw h refl

trim-IsTrimmed : (s : List ℕ) → IsTrimmed (trim s)
trim-IsTrimmed [] = (refl, refl)
trim-IsTrimmed (c ∷ cs) = elim (Bool-cases (is_whitespace c)) [
  | inl t ↦ rw t (trim-IsTrimmed cs)
  | inr f ↦ rw f (trim_start-kept c (trim_end cs) f, trim_end-trim_end (c ∷ cs))
]

-- A prefix that starts with no white space keeps an address that does not end in it.
trim_end-append :
    (xs : List ℕ) (c : ℕ) (cs : List ℕ)
    → trim_end (c ∷ cs) ≡ c ∷ cs
    → trim_end (xs ++ c ∷ cs) ≡ xs ++ c ∷ cs
trim_end-append [] c cs h = h
trim_end-append (x ∷ []) c cs h = ap (kept x) h
trim_end-append (x ∷ y ∷ xs) c cs h = ap (kept x) (trim_end-append (y ∷ xs) c cs h)

prefixed-prefixed : (s : List ℕ) → IsTrimmed s → prefixed (trim (prefixed s)) ≡ prefixed s
prefixed-prefixed [] h = refl
prefixed-prefixed (c ∷ cs) (h, k) = elim (Bool-cases (c == 47)) [
  | inl t ↦ rw t (ap prefixed (ap trim_end h ∙ k) ∙ if_true (c == 47) _ _ t)
  | inr f ↦ rw f (ap prefixed (trim_end-append vrchat_param_prefix c cs k))
]

-- An address that was normalised is not changed when it is normalised again.
normalize_address-normalize_address :
    (raw : List ℕ) → normalize_address (normalize_address raw) ≡ normalize_address raw
unfolding normalize_address
normalize_address-normalize_address raw = prefixed-prefixed (trim raw) (trim-IsTrimmed raw)

normalize_all : (rs : List HapticRule) → map normalize (map normalize rs) ≡ map normalize rs
normalize_all [] = refl
normalize_all (r ∷ rs) =
    ap₂ ◌∷◌
      (ap (λ a. record r { osc_address = a }) (normalize_address-normalize_address r.osc_address))
      (normalize_all rs)

-- Normalising the rules of a configuration a second time changes nothing.
pub normalize_rules-normalize_rules :
    (c : HapticConfig) → normalize_rules (normalize_rules c) ≡ normalize_rules c
unfolding normalize_rules
normalize_rules-normalize_rules c = ap (λ rs. record c { rules = rs }) (normalize_all c.rules)
