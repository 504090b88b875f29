-- ===== src/Traits/Reset/Debounce.antt =====
-- Emitted resets keep the debounce distance.
use everything_imu.Prelude.{
  ℕ, ◌+◌, ◌-◌, ◌≤◌, ◌<◌, ◌≡◌, ◌⊎◌, inl, inr, sym, List, [], ◌∷◌, Option, none, some, arith,
}
use mathlib.Core.Path.{subst}
use everything_imu.Traits.Reset.{
  ResetKind, ButtonState, home_or_capture, capture_only, ResetButtonDetector, observe,
  with_thresholds,
}

abbrev push_if : Option ResetKind → ℕ → List ℕ → List ℕ
push_if none now times = times
push_if (some kind) now times = now ∷ times

-- The times at which `observe` returns a reset.
unfoldable pub emits : ResetButtonDetector → List (ButtonState × ℕ) → List ℕ
unfolding observe
emits r [] = []
emits r ((button, now) ∷ seen) =
    let (r', kind) = observe r button now in push_if kind now (emits r' seen)

-- Each time is at least `debounce` after the one before it.
abbrev pub AreApart : ℕ → Option ℕ → List ℕ → Type 0
AreApart debounce last [] = Unit {0}
AreApart debounce none (t ∷ ts) = AreApart debounce (some t) ts
AreApart debounce (some last) (t ∷ ts) = (last + debounce ≤ t) × AreApart debounce (some t) ts

-- An observation that emits does so at a distance and records it; any other keeps the last emit.
abbrev Emits : ResetButtonDetector → ℕ → ResetButtonDetector × Option ResetKind → Type 0
Emits r now (r', none) = (r'.last_emit ≡ r.last_emit) × (r'.debounce ≡ r.debounce)
Emits r now (r', some kind) =
    (r'.last_emit ≡ some now)
    × (r'.debounce ≡ r.debounce)
    × ((r.last_emit ≡ none) ⊎ ((t : ℕ) × (r.last_emit ≡ some t) × (r.debounce ≤ now - t)))

observe-Emits :
    (r : ResetButtonDetector) (button : ButtonState) (now : ℕ) → Emits r now (observe r button now)
unfolding observe
observe-Emits r (home_or_capture h c) now = ground arith
observe-Emits r (capture_only p) now = ground arith

apart_step :
    (r : ResetButtonDetector) (now : ℕ) (out : ResetButtonDetector × Option ResetKind) (ts : List ℕ)
    → 0 < r.debounce
    → Emits r now out
    → (0 < out.0.debounce → AreApart out.0.debounce out.0.last_emit ts)
    → AreApart r.debounce r.last_emit (push_if out.1 now ts)
apart_step r now (r', none) ts h (l, d) next =
    subst (λ g. AreApart g r.last_emit ts) d
      (subst (λ o. AreApart r'.debounce o ts) l (next (omega arith)))
apart_step r now (r', some kind) ts h (l, d, gap) next =
    let rest =
      subst (λ g. AreApart g (some now) ts) d
        (subst (λ o. AreApart r'.debounce o ts) l (next (omega arith))) in
    elim gap [
      | inl e ↦ subst (λ o. AreApart r.debounce o (now ∷ ts)) (sym e) rest
      | inr (t, e, le) ↦ subst (λ o. AreApart r.debounce o (now ∷ ts)) (sym e) (omega arith, rest)
    ]

emits-AreApart :
    (r : ResetButtonDetector) (seen : List (ButtonState × ℕ))
    → 0 < r.debounce
    → AreApart r.debounce r.last_emit (emits r seen)
unfolding emits
emits-AreApart r [] h = tt
emits-AreApart r ((button, now) ∷ seen) h =
    apart_step r now (observe r button now) _ h (observe-Emits r button now)
      (λ k. emits-AreApart (observe r button now).0 seen k)

-- Whatever the buttons do, and whether or not the clock goes back, two resets that follow one another
-- are at least the debounce time apart, if that is not zero.
pub resets_apart :
    (long_threshold debounce : ℕ) (seen : List (ButtonState × ℕ))
    → 0 < debounce
    → AreApart debounce none (emits (with_thresholds long_threshold debounce) seen)
unfolding with_thresholds
resets_apart long_threshold debounce seen h =
    emits-AreApart (with_thresholds long_threshold debounce) seen h
