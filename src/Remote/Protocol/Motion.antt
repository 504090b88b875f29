-- ===== src/Remote/Protocol/Motion.antt =====
-- The payloads of batteries, buttons and samples, and lemmas that all payloads share.
use everything_imu.Prelude.{
  ℕ, ◌+◌, ◌*◌, ◌≤◌, ◌<◌, ◌^◌, ◌≡◌, ◌≢◌, refl, sym, ap, ◌∙◌, List, [], ◌∷◌, ◌++◌, Option, none, some,
  Bool, true, false, ltb, le→ltb_false, if◌then◌else◌, if_true, if_false, length, to_le,
  from_le-to_le, append-nil, arith,
}
use everything_imu.Traits.Reset.{ResetKind, yaw, full, mounting}
use everything_imu.Slices.{
  slice, u16le, f32le, >>=_step, u16le-front, slice-front, slice-middle, u16le-skip,
}
use everything_imu.Remote.Utf8.{is_utf8, from_utf8}
use everything_imu.Remote.Protocol.{
  magic, version, DeviceKind, phone, watch, joycon2_l, joycon2_r, pro_controller2, hopx, dual_sense,
  dual_shock4, joycon_l, joycon_r, pro_controller, gamepad, kind_from_wire, ImuSample, RemoteMsg,
  imu, battery, button, nonzero, read_samples, parse_imu_samples, parse_battery, parse_button,
  parse_imu2, parse_body, parse, or_return,
}
use everything_imu.Remote.Protocol.Samples.{
  wire_samples, length-wire_samples, AreSamples, read_samples-wire_samples,
}
use everything_imu.Remote.Protocol.Wire.{kind_id, flag, header, wire_reset}

-- A length test that is passed.
pub passed :
    {A : Type 0} (n m : ℕ) (x y : Option (Option A)) {r : Option (Option A)}
    → m ≤ n
    → y ≡ r
    → (if ltb n m then x else y) ≡ r
passed n m x y h e = if_false (ltb n m) x y (le→ltb_false n m h) ∙ e

pub parse-header : (msg : ℕ) (p : List ℕ) → parse (header msg p) ≡ parse_body msg p
unfolding parse
parse-header msg p = passed (length (header msg p)) 6 _ _ (omega arith) (
    >>=_step (slice (header msg p) 0 4) _ (slice-front magic (version ∷ msg ∷ p) refl)
      (>>=_step (slice (header msg p) 6 (length (header msg p))) _ whole refl))
  where
    whole : slice (header msg p) 6 (length (header msg p)) ≡ some p
    whole =
        ap (λ l. slice (header msg l) 6 (length (header msg p))) (sym (append-nil p))
        ∙ slice-middle (header msg []) p [] 6 (length (header msg p)) refl (omega arith)

-- `or_return` goes on with a value.
pub returned :
    {A : Type 0} (o : Option A) (next : A → Option (Option RemoteMsg)) {a : A}
    {r : Option (Option RemoteMsg)}
    → o ≡ some a
    → next a ≡ r
    → or_return o next ≡ r
returned o next h e = ap (λ o. or_return o next) h ∙ e

pub nonzero-flag : (b : Bool) → nonzero (flag b) ≡ b
nonzero-flag true = refl
nonzero-flag false = refl

pub kind_from_wire-kind_id : (k : DeviceKind) → 0 < kind_id k → kind_from_wire (kind_id k) ≡ some k
unfolding kind_from_wire
kind_from_wire-kind_id phone h = refl
kind_from_wire-kind_id watch h = refl
kind_from_wire-kind_id joycon2_l h = refl
kind_from_wire-kind_id joycon2_r h = refl
kind_from_wire-kind_id pro_controller2 h = refl
kind_from_wire-kind_id hopx h = refl
kind_from_wire-kind_id dual_sense h = refl
kind_from_wire-kind_id dual_shock4 h = refl
kind_from_wire-kind_id joycon_l h = refl
kind_from_wire-kind_id joycon_r h = refl
kind_from_wire-kind_id pro_controller h = refl
kind_from_wire-kind_id gamepad h = refl
kind_from_wire-kind_id _ h = absurd (omega arith)

pub from_utf8_lem : (name : List ℕ) → is_utf8 name ≡ true → from_utf8 name ≡ some name
unfolding from_utf8
from_utf8_lem name h = if_true (is_utf8 name) (some name) none h

pub some_battery :
    {h h' f f' : ℕ} {c c' : Bool}
    → h ≡ h'
    → f ≡ f'
    → c ≡ c'
    → Path
        (Option (Option RemoteMsg))
        (some (some (battery h f c)))
        (some (some (battery h' f' c')))
some_battery a b c = rw (a, b, c)

pub parse_battery-wire :
    (handle fraction : ℕ) (charging : Bool) (tail : List ℕ)
    → handle < 2 ^ 16
    → fraction < 2 ^ 32
    → parse_battery (to_le 2 handle ++ (to_le 4 fraction ++ (flag charging ∷ tail)))
      ≡ some (some (battery handle fraction charging))
unfolding parse_battery to_le u16le f32le
parse_battery-wire handle fraction charging tail h f =
    passed (length (to_le 2 handle ++ (to_le 4 fraction ++ (flag charging ∷ tail)))) 7 _ _
      (omega arith)
      (some_battery (from_le-to_le 2 handle h) (from_le-to_le 4 fraction f) (nonzero-flag charging))

pub parse_button-wire :
    (handle : ℕ) (reset : ResetKind) (tail : List ℕ)
    → handle < 2 ^ 16
    → reset ≢ mounting
    → parse_button (to_le 2 handle ++ (wire_reset reset ∷ tail)) ≡ some (some (button handle reset))
unfolding parse_button to_le u16le
parse_button-wire handle yaw tail h r =
    passed (length (to_le 2 handle ++ (0 ∷ tail))) 3 _ _ (omega arith)
      (ap (λ x. some (some (button x yaw))) (from_le-to_le 2 handle h))
parse_button-wire handle full tail h r =
    passed (length (to_le 2 handle ++ (1 ∷ tail))) 3 _ _ (omega arith)
      (ap (λ x. some (some (button x full))) (from_le-to_le 2 handle h))
parse_button-wire handle mounting tail h r = absurd (r refl)

pub parse_imu-wire :
    (handle : ℕ) (samples : List ImuSample) (tail : List ℕ)
    → handle < 2 ^ 16
    → AreSamples samples
    → parse_imu_samples (to_le 2 handle ++ (length samples ∷ wire_samples samples tail)) 0
      ≡ some (some (handle, samples))
unfolding parse_imu_samples to_le
parse_imu-wire handle samples tail h hs =
    let p = to_le 2 handle ++ (length samples ∷ wire_samples samples tail) in
    passed (length p) 3 _ _ (omega arith) (
      >>=_step (u16le p 0) _ (u16le-front handle _ h) (
        passed (length p) (3 + length samples * 45) _ _
          (omega (arith, length-wire_samples samples tail))
          (>>=_step (read_samples p 3 (length samples)) _
            (read_samples-wire_samples (to_le 2 handle ++ (length samples ∷ [])) samples tail hs)
            refl)))

pub parse_imu2-wire :
    (handle seq : ℕ) (samples : List ImuSample) (tail : List ℕ)
    → handle < 2 ^ 16
    → seq < 2 ^ 16
    → AreSamples samples
    → parse_imu2 (to_le 2 handle ++ (to_le 2 seq ++ (length samples ∷ wire_samples samples tail)))
      ≡ some (some (imu handle (some seq) samples))
unfolding parse_imu2 parse_imu_samples to_le
parse_imu2-wire handle seq samples tail h hq hs =
    let p = to_le 2 handle ++ (to_le 2 seq ++ (length samples ∷ wire_samples samples tail)) in
    passed (length p) 5 _ _ (omega arith) (
      >>=_step (u16le p 2) _ (u16le-skip (to_le 2 handle) _ 2 0 refl ∙ u16le-front seq _ hq) (
        >>=_step (parse_imu_samples p 2) _
          (passed (length p) 5 _ _ (omega arith) (
            >>=_step (u16le p 0) _ (u16le-front handle _ h) (
              passed (length p) (5 + length samples * 45) _ _
                (omega (arith, length-wire_samples samples tail))
                (>>=_step (read_samples p 5 (length samples)) _
                  (read_samples-wire_samples
                    (to_le 2 handle ++ (to_le 2 seq ++ (length samples ∷ []))) samples tail hs)
                  refl))))
          refl))
