-- ===== src/Traits/Health/History.antt =====
-- Histories of samples and disconnects, and the times in them.
use everything_imu.Prelude.{
  ℕ, ◌-◌, ◌≤◌, ◌≡◌, refl, ap, ◌∙◌, List, [], ◌∷◌, ◌++◌, Bool, true, false, Option, none, some, ltb,
  leb, if◌then◌else◌, if_cases, arith, All, Bool-cases, inl, inr,
}
use everything_imu.Traits.Health.{HealthClassifier, cutoff, prune, record_sample, record_disconnect}

-- The times that are at least `limit`.
abbrev pub since : ℕ → List ℕ → List ℕ
since limit [] = []
since limit (t ∷ ts) = let rest = since limit ts in if leb limit t then t ∷ rest else rest

abbrev pub last : List ℕ → Option ℕ
last [] = none
last (t ∷ []) = some t
last (t ∷ u ∷ ts) = last (u ∷ ts)

-- A clock that does not go back, read from `first` on.
abbrev pub IsClock : ℕ → List ℕ → Type 0
IsClock first [] = Unit {0}
IsClock first (t ∷ ts) = (first ≤ t) × IsClock t ts

pub data Event : Type 0 where
  sample : (time : ℕ) → Event
  lost : Event

-- The classifier after a history of samples and disconnects.
unfoldable pub recorded : HealthClassifier → List Event → HealthClassifier
unfolding record_sample record_disconnect
recorded c [] = c
recorded c (sample t ∷ events) = recorded (record_sample c t) events
recorded c (lost ∷ events) = recorded (record_disconnect c) events

abbrev pub times : List Event → List ℕ
times [] = []
times (sample t ∷ events) = t ∷ times events
times (lost ∷ events) = times events

-- Whether the last event is a disconnect.
abbrev pub ends_lost : Bool → List Event → Bool
ends_lost b [] = b
ends_lost b (sample t ∷ events) = ends_lost false events
ends_lost b (lost ∷ events) = ends_lost true events

pub since_all :
    (limit first : ℕ) (ts : List ℕ) → limit ≤ first → IsClock first ts → since limit ts ≡ ts
since_all limit first [] le h = refl
since_all limit first (t ∷ ts) le (f, h) = ground (arith, since_all limit t ts (omega arith) h)

pub prune-since :
    (limit first : ℕ) (ts : List ℕ) → IsClock first ts → prune limit ts ≡ since limit ts
prune-since limit first [] h = refl
prune-since limit first (t ∷ ts) (f, h) = elim (Bool-cases (ltb t limit)) [
  | inl e ↦ ground (arith, prune-since limit t ts h)
  | inr e ↦ ground (arith, since_all limit t ts (ground arith) h)
]

pub since-since : (lo hi : ℕ) (ts : List ℕ) → lo ≤ hi → since hi (since lo ts) ≡ since hi ts
since-since lo hi [] h = refl
since-since lo hi (t ∷ ts) h = ground (arith, since-since lo hi ts h)

pub IsClock-weaken : (g f : ℕ) (ts : List ℕ) → g ≤ f → IsClock f ts → IsClock g ts
IsClock-weaken g f [] le h = tt
IsClock-weaken g f (t ∷ ts) le (k, h) = (omega arith, h)

pub since-IsClock : (limit f : ℕ) (ts : List ℕ) → IsClock f ts → IsClock f (since limit ts)
since-IsClock limit f [] h = tt
since-IsClock limit f (t ∷ ts) (k, h) =
    let rest = since-IsClock limit t ts h in
    if_cases (λ us. IsClock f us) (leb limit t) (λ e. (k, rest)) (λ e. IsClock-weaken f t _ k rest)

pub snoc-IsClock :
    (f p t : ℕ) (ts : List ℕ)
    → IsClock f ts
    → All (λ u. u ≤ p) ts
    → p ≤ t
    → f ≤ t
    → IsClock f (ts ++ t ∷ [])
snoc-IsClock f p t [] h b pt ft = (ft, tt)
snoc-IsClock f p t (u ∷ ts) (k, h) (up, b) pt ft = (k, snoc-IsClock u p t ts h b pt (omega arith))

pub All-raise :
    (p t : ℕ) (ts : List ℕ) → p ≤ t → All (λ u. u ≤ p) ts → All (λ u. u ≤ t) (ts ++ t ∷ [])
All-raise p t [] pt h = (omega arith, tt)
All-raise p t (u ∷ ts) pt (k, h) = (omega arith, All-raise p t ts pt h)

pub last-snoc : (t : ℕ) (ts : List ℕ) → last (ts ++ t ∷ []) ≡ some t
last-snoc t [] = refl
last-snoc t (u ∷ []) = refl
last-snoc t (u ∷ v ∷ ts) = last-snoc t (v ∷ ts)

pub since-snoc :
    (limit t : ℕ) (ts : List ℕ) → limit ≤ t → since limit ts ++ t ∷ [] ≡ since limit (ts ++ t ∷ [])
since-snoc limit t [] h = ground arith
since-snoc limit t (u ∷ ts) h = ground (arith, since-snoc limit t ts h)

pub cutoff_lem : (window now : ℕ) → window ≤ now → cutoff window now ≡ now - window
cutoff_lem window now h = ground arith

pub prune-seen :
    (window lo now : ℕ) (seen : List ℕ)
    → IsClock window seen
    → window ≤ now
    → lo ≤ now - window
    → prune (cutoff window now) (since lo seen) ≡ since (now - window) seen
prune-seen window lo now seen h w l =
    ap (λ k. prune k (since lo seen)) (cutoff_lem window now w)
    ∙ prune-since (now - window) window (since lo seen) (since-IsClock lo window seen h)
    ∙ since-since lo (now - window) seen l
