-- ===== src/Haptics/Listener/Motors.antt =====
-- crates/osc-haptics/src/listener.rs: what the loop remembers of a device is the last command to it.
use everything_imu.Prelude.{
  ℕ, Option, none, some, false, ◌==◌, ◌≡◌, sym, ap, ◌∙◌, if_true, if_false, if_cases, Bool-cases,
  inl, inr,
}
use everything_imu.Maps.{lookup, lookup-insert}
use everything_imu.Haptics.Mapping.{Floats, f_zero}
use everything_imu.Haptics.Listener.Stable.{IsStable, quench_kept}
use everything_imu.Haptics.Listener.{
  LoopState, Sent, written, quench, expired, active, silence_all, on_tick,
}

abbrev pub intensity_of : Option Sent → Option ℕ
intensity_of none = none
intensity_of (some (sent_at, v)) = some v

-- What the last command to each device was: from the sink, and from the memory of the loop.
abbrev pub Mirrors : LoopState → Type 0
Mirrors s = (mac : ℕ) → intensity_of (lookup mac s.last_sent) ≡ lookup mac s.sink

-- A motor is off if no command or one of no more than 0.0 was the last.
abbrev pub IsOff : Floats → Option ℕ → Type 0
IsOff fl none = Unit {0}
IsOff fl (some v) = fl.lt f_zero v ≡ false

module _ (fl : Floats) where
  written-Mirrors : (mac v now : ℕ) (s : LoopState) → Mirrors s → Mirrors (written fl mac v now s)
  written-Mirrors mac v now s m j =
      ap intensity_of (lookup-insert j mac (now, v) s.last_sent) ∙ elim (Bool-cases (j == mac)) [
        | inl t ↦
            ap intensity_of (if_true (j == mac) (some (now, v)) (lookup j s.last_sent) t)
            ∙ sym (if_true (j == mac) (some v) (lookup j s.sink) t)
        | inr f ↦
            ap intensity_of (if_false (j == mac) (some (now, v)) (lookup j s.last_sent) f)
            ∙ m j
            ∙ sym (if_false (j == mac) (some v) (lookup j s.sink) f)
      ]

  pub Mirrors-IsStable : IsStable fl Mirrors
  Mirrors-IsStable = record {
    writes = written-Mirrors;
    pulses = λ ends s m. m;
    finds = λ seen offered s m. m;
    sniffs = λ sn s m. m;
  }

  pub on_tick-Mirrors :
      (now later : ℕ) (s : LoopState) → Mirrors s → Mirrors (on_tick fl now later s)
  unfolding on_tick silence_all
  on_tick-Mirrors now later s m =
      let s' = quench fl now (expired fl now s.pulse_until) s in
      let m' = quench_kept fl Mirrors Mirrors-IsStable now (expired fl now s.pulse_until) s m in
      if_cases Mirrors _
        (λ e. quench_kept fl Mirrors Mirrors-IsStable later (active fl s'.last_sent) s' m')
        (λ e. m')
