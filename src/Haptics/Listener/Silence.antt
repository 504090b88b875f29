-- ===== src/Haptics/Listener/Silence.antt =====
-- crates/osc-haptics/src/listener.rs: `silence_all` leaves no device on.
use everything_imu.Prelude.{
  ℕ, List, [], ◌∷◌, some, Bool, true, false, ◌||◌, ◌==◌, ◌≡◌, ◌⊎◌, inl, inr, sym, if_true, if_false,
  Bool-cases, Option-cases, arith,
}
use mathlib.Core.Path.{subst}
use everything_imu.Maps.{lookup, without, lookup-insert}
use everything_imu.Haptics.Mapping.{Floats, f_zero}
use everything_imu.Haptics.Listener.{LoopState, Sent, send, quench, active, silence_all}
use everything_imu.Haptics.Listener.Motors.{intensity_of, IsOff}

abbrev is_among : ℕ → List ℕ → Bool
is_among j [] = false
is_among j (k ∷ ks) = j == k || is_among j ks

module _ (fl : Floats) where
  active-contains :
      (j : ℕ) (es : List (ℕ × Sent)) (v : Sent)
      → lookup j es ≡ some v
      → fl.lt f_zero v.1 ≡ true
      → is_among j (active fl es) ≡ true
  active-contains j [] v h on = absurd (ground (arith, h))
  active-contains j ((k, (w, x)) ∷ es) v h on = ground (arith, h, on, active-contains j es v)

  -- What the loop remembers of a device says that it is off.
  abbrev pub KnownOff : ℕ → LoopState → Type 0
  KnownOff j s = IsOff fl (intensity_of (lookup j s.last_sent))

  -- 0.0 is not more than 0.0.
  module _ (zero_off : fl.lt f_zero f_zero ≡ false) where
    abbrev silenced : ℕ → LoopState → ℕ → LoopState
    silenced now s mac =
        send fl (record s { pulse_until = without mac s.pulse_until }) mac f_zero true now

    silenced-KnownOff :
        (j now mac : ℕ) (s : LoopState)
        → ((j == mac) ≡ true) ⊎ KnownOff j s
        → KnownOff j (silenced now s mac)
    unfolding send
    silenced-KnownOff j now mac s h =
        subst (λ o. IsOff fl (intensity_of o)) (sym (lookup-insert j mac (now, f_zero) s.last_sent))
          (elim (Bool-cases (j == mac)) [
            | inl t ↦
                subst (λ o. IsOff fl (intensity_of o))
                  (sym (if_true (j == mac) (some (now, f_zero)) (lookup j s.last_sent) t)) zero_off
            | inr f ↦
                subst (λ o. IsOff fl (intensity_of o))
                  (sym (if_false (j == mac) (some (now, f_zero)) (lookup j s.last_sent) f))
                  (other f h)
          ])
      where
        other : (j == mac) ≡ false → ((j == mac) ≡ true) ⊎ KnownOff j s → KnownOff j s
        other f (inl t) = absurd (ground (arith, f, t))
        other f (inr k) = k

    pub quench-KnownOff :
        (j now : ℕ) (macs : List ℕ) (s : LoopState)
        → (is_among j macs ≡ true) ⊎ KnownOff j s
        → KnownOff j (quench fl now macs s)
    quench-KnownOff j now [] s (inl h) = absurd (ground (arith, h))
    quench-KnownOff j now [] s (inr h) = h
    quench-KnownOff j now (mac ∷ macs) s h =
        quench-KnownOff j now macs (silenced now s mac) (next h)
      where
        next :
            ((j == mac || is_among j macs) ≡ true) ⊎ KnownOff j s
            → (is_among j macs ≡ true) ⊎ KnownOff j (silenced now s mac)
        next (inr k) = inr (silenced-KnownOff j now mac s (inr k))
        next (inl c) = elim (Bool-cases (j == mac)) [
          | inl t ↦ inr (silenced-KnownOff j now mac s (inl t))
          | inr f ↦ inl (ground (arith, c, f))
        ]

    pub silence_all-KnownOff : (j now : ℕ) (s : LoopState) → KnownOff j (silence_all fl now s)
    unfolding silence_all
    silence_all-KnownOff j now s = quench-KnownOff j now (active fl s.last_sent) s known
      where
        known : (is_among j (active fl s.last_sent) ≡ true) ⊎ KnownOff j s
        known = elim (Option-cases (lookup j s.last_sent)) [
          | inl e ↦ inr (subst (λ o. IsOff fl (intensity_of o)) (sym e) tt)
          | inr (v, e) ↦ elim (Bool-cases (fl.lt f_zero v.1)) [
            | inl on ↦ inl (active-contains j s.last_sent v e on)
            | inr off ↦ inr (subst (λ o. IsOff fl (intensity_of o)) (sym e) off)
          ]
        ]
