-- ===== src/Traits/Reset.antt =====
-- `ResetButtonDetector` of crates/device-traits/src/reset.rs. An `Instant` and a `Duration` are
-- numbers of one unit; `saturating_duration_since` is the truncated difference.
pub mod Debounce
pub mod Presses
use everything_imu.Prelude.{
  ℕ, ◌-◌, List, [], ◌∷◌, Bool, true, false, not, ◌&&◌, Option, none, some, ltb, leb, if◌then◌else◌,
}

pub data ResetKind : Type 0 where
  yaw full mounting : ResetKind

pub data ButtonState : Type 0 where
  home_or_capture : (home_pressed capture_pressed : Bool) → ButtonState
  capture_only : (pressed : Bool) → ButtonState

pub record ResetButtonDetector : Type 0 where
  pub pressed_since : Option ℕ
  pub capture_was_pressed : Bool
  pub long_threshold : ℕ
  pub debounce : ℕ
  pub last_emit : Option ℕ

unfoldable pub with_thresholds : ℕ → ℕ → ResetButtonDetector
with_thresholds long_threshold debounce = record {
  pressed_since = none;
  capture_was_pressed = false;
  long_threshold = long_threshold;
  debounce = debounce;
  last_emit = none;
}

-- The default thresholds, in milliseconds.
unfoldable pub new : ResetButtonDetector
unfolding with_thresholds
new = with_thresholds 1000 300

-- `last_emit.map(|t| now.saturating_duration_since(t) < debounce).unwrap_or(false)`.
abbrev pub since_emit : Option ℕ → ℕ → ℕ → Bool
since_emit none debounce now = false
since_emit (some t) debounce now = ltb (now - t) debounce

-- Emits `kind`, unless an emit was too short a while ago.
abbrev emit : ResetButtonDetector → ℕ → ResetKind → ResetButtonDetector × Option ResetKind
emit r now kind =
    if since_emit r.last_emit r.debounce now
    then (r, none)
    else (record r { last_emit = some now }, some kind)

-- The `match` on the home button and on the time since which it is held.
observe_home : Bool → Option ℕ → ResetButtonDetector → ℕ → ResetButtonDetector × Option ResetKind
observe_home true none r now = (record r { pressed_since = some now }, none)
observe_home true (some start) r now = (r, none)
observe_home false (some start) r now =
    emit (record r { pressed_since = none }) now
      (if leb r.long_threshold (now - start) then full else yaw)
observe_home false none r now = (r, none)

-- The capture button alone: the press edge.
observe_capture : Bool → Option ℕ → ResetButtonDetector → ℕ → ResetButtonDetector × Option ResetKind
observe_capture true none r now = emit (record r { pressed_since = some now }) now yaw
observe_capture true (some start) r now = (r, none)
observe_capture false since r now = (record r { pressed_since = none }, none)

unfoldable pub observe :
    ResetButtonDetector → ButtonState → ℕ → ResetButtonDetector × Option ResetKind
unfolding observe_home observe_capture
observe r (home_or_capture home_pressed capture_pressed) now =
    let seen = record r { capture_was_pressed = capture_pressed } in
    if capture_pressed && not r.capture_was_pressed
    then emit seen now yaw
    else observe_home home_pressed r.pressed_since seen now
observe r (capture_only pressed) now = observe_capture pressed r.pressed_since r now

-- The detector after some observations.
unfoldable pub after : ResetButtonDetector → List (ButtonState × ℕ) → ResetButtonDetector
unfolding observe
after r [] = r
after r ((button, now) ∷ seen) = after (observe r button now).0 seen
