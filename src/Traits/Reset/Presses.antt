-- ===== src/Traits/Reset/Presses.antt =====
-- What a press of the home button and a held capture button give.
use everything_imu.Prelude.{
  ℕ, ◌-◌, ◌≡◌, refl, List, [], ◌∷◌, map, none, some, true, false, inl, inr, Option-cases, leb,
  if◌then◌else◌, arith,
}
use everything_imu.Traits.Reset.{
  full, yaw, ButtonState, home_or_capture, capture_only, ResetButtonDetector, since_emit, observe,
  after,
}
use everything_imu.Traits.Reset.Debounce.{emits}

abbrev pub held : ButtonState → List ℕ → List (ButtonState × ℕ)
held button times = map (λ t. (button, t)) times

-- The home button has been down since `start`, and nothing else is.
record IsHeld (start : ℕ) (r r' : ResetButtonDetector) : Type 0 where
  since : r'.pressed_since ≡ some start
  emitted : r'.last_emit ≡ r.last_emit
  threshold : r'.long_threshold ≡ r.long_threshold
  gap : r'.debounce ≡ r.debounce

hold :
    (start : ℕ) (r r' : ResetButtonDetector) (times : List ℕ)
    → IsHeld start r r'
    → IsHeld start r (after r' (held (home_or_capture true false) times))
unfolding after
hold start r r' [] h = h
hold start r r' (t ∷ times) h =
    hold start r (observe r' (home_or_capture true false) t).0 times
      (unfold observe in ground arith)

press :
    (r : ResetButtonDetector) (start : ℕ)
    → r.pressed_since ≡ none
    → IsHeld start r (observe r (home_or_capture true false) start).0
unfolding observe
press r start h = ground arith

release :
    (start now : ℕ) (r r' : ResetButtonDetector)
    → IsHeld start r r'
    → (observe r' (home_or_capture false false) now).1 ≡ (
        if since_emit r.last_emit r.debounce now
        then none
        else some (if leb r.long_threshold (now - start) then full else yaw))
unfolding observe
release start now r r' h = ground arith

-- When the home button goes down while it is up, stays down for any number of observations, and is
-- let go at `now`, that last observation gives a full reset if it was down for the long threshold,
-- else a yaw reset; nothing if the last emit before the press is closer than the debounce time.
pub home_press :
    (r : ResetButtonDetector) (start now : ℕ) (times : List ℕ)
    → r.pressed_since ≡ none
    → (observe
        (after r (held (home_or_capture true false) (start ∷ times)))
        (home_or_capture false false)
        now).1
      ≡ (if since_emit r.last_emit r.debounce now
          then none
          else some (if leb r.long_threshold (now - start) then full else yaw))
home_press r start now times h =
    release start now r _ (unfold after in hold start r _ times (press r start h))

quiet_only :
    (r : ResetButtonDetector) (start : ℕ) (times : List ℕ)
    → r.pressed_since ≡ some start
    → emits r (held (capture_only true) times) ≡ []
unfolding emits
quiet_only r start [] h = refl
quiet_only r start (t ∷ times) h = ground (arith, quiet_only r start times h)

quiet_both :
    (r : ResetButtonDetector) (times : List ℕ)
    → r.pressed_since ≡ none
    → r.capture_was_pressed ≡ true
    → emits r (held (home_or_capture false true) times) ≡ []
unfolding emits
quiet_both r [] h c = refl
quiet_both r (t ∷ times) h c =
    ground (arith, quiet_both (observe r (home_or_capture false true) t).0 times)

capture-since :
    (r : ResetButtonDetector) (start : ℕ)
    → (t : ℕ) × ((observe r (capture_only true) start).0.pressed_since ≡ some t)
unfolding observe
capture-since r start = elim (Option-cases r.pressed_since) [
  | inl e ↦ (start, ground (arith, e))
  | inr (t, e) ↦ (t, ground (arith, e))
]

both-quiet :
    (r : ResetButtonDetector) (start : ℕ)
    → r.pressed_since ≡ none
    → ((observe r (home_or_capture false true) start).0.pressed_since ≡ none)
      × ((observe r (home_or_capture false true) start).0.capture_was_pressed ≡ true)
unfolding observe
both-quiet r start h = ground arith

-- On a device without a home button, a capture button that stays down gives no second reset.
pub capture_fires_once :
    (r : ResetButtonDetector) (start : ℕ) (times : List ℕ)
    → emits (observe r (capture_only true) start).0 (held (capture_only true) times) ≡ []
capture_fires_once r start times = let (t, e) = capture-since r start in quiet_only _ t times e

-- On a device with a home button that is up, a capture button that stays down gives no second reset.
pub capture_fires_once_beside_home :
    (r : ResetButtonDetector) (start : ℕ) (times : List ℕ)
    → r.pressed_since ≡ none
    → emits
        (observe r (home_or_capture false true) start).0
        (held (home_or_capture false true) times)
      ≡ []
capture_fires_once_beside_home r start times h =
    let (u, c) = both-quiet r start h in quiet_both _ times u c
