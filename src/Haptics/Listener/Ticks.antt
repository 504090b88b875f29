-- ===== src/Haptics/Listener/Ticks.antt =====
-- crates/osc-haptics/src/listener.rs: what one tick of the timer does.
use everything_imu.Prelude.{
  min, ℕ, ◌-◌, ◌≤◌, ◌<◌, List, [], ◌∷◌, Bool, true, false, not, ◌&&◌, ◌≡◌, ◌⊎◌, inl, inr, refl, sym,
  ap, ◌∙◌, leb, if_true, if_false, Bool-cases, arith,
}
use mathlib.Core.Path.{subst}
use everything_imu.Haptics.Mapping.{Floats, f_zero}
use everything_imu.Haptics.Listener.{
  LoopState, next_wake, soonest, max_tick, min_tick, watchdog_idle, quench, expired, active,
  silence_all, on_tick,
}
use everything_imu.Haptics.Listener.Stable.{IsStable, quench_kept}
use everything_imu.Haptics.Listener.Silence.{KnownOff, quench-KnownOff, silence_all-KnownOff}
use everything_imu.Haptics.Listener.Motors.{Mirrors, on_tick-Mirrors}

module _ (fl : Floats) where
  -- The loop knows the last command to each device, and has none on once it has silenced them.
  pub record IsKept (s : LoopState) : Type 0 where
    pub mirrors : Mirrors s
    pub off_if_silenced : (s.idle_silenced ≡ false) ⊎ ((j : ℕ) → KnownOff fl j s)

  -- What a packet and the expiry of a pulse leave alone.
  abbrev pub Flags : Bool → ℕ → LoopState → Type 0
  Flags b t s = (s.idle_silenced ≡ b) × (s.last_packet ≡ t)

  pub Flags-IsStable : (b : Bool) (t : ℕ) → IsStable fl (Flags b t)
  Flags-IsStable b t = record {
    writes = λ mac v now s f. f;
    pulses = λ ends s f. f;
    finds = λ seen offered s f. f;
    sniffs = λ sn s f. f;
  }

  soonest-le : (now : ℕ) (ends : List (ℕ × ℕ)) (wake : ℕ) → soonest now ends wake ≤ wake
  soonest-le now [] wake = omega arith
  soonest-le now ((mac, end) ∷ ends) wake =
      omega (arith, soonest-le now ends (min wake (end - now)))

  -- The loop never sleeps longer than the coarsest tick.
  pub next_wake-le : (s : LoopState) (now : ℕ) → next_wake s now ≤ max_tick
  unfolding next_wake
  next_wake-le s now = ground (arith, soonest-le now s.pulse_until max_tick)

  pub min_tick-le : (s : LoopState) (now : ℕ) → min_tick ≤ next_wake s now
  unfolding next_wake
  min_tick-le s now = omega arith

  module _ (zero_off : fl.lt f_zero f_zero ≡ false) where
    -- The state after the expiry of the pulses.
    abbrev after_pulses : ℕ → LoopState → LoopState
    after_pulses now s = quench fl now (expired fl now s.pulse_until) s

    after_pulses-Flags :
        (now : ℕ) (s : LoopState) → Flags s.idle_silenced s.last_packet (after_pulses now s)
    after_pulses-Flags now s =
        quench_kept fl (Flags s.idle_silenced s.last_packet)
          (Flags-IsStable s.idle_silenced s.last_packet) now (expired fl now s.pulse_until) s
          (refl, refl)

    abbrev after_watchdog : ℕ → LoopState → LoopState
    after_watchdog later s = record (silence_all fl later s) { idle_silenced = true }

    -- The two ways of a tick: the watchdog acts, or it has acted, or it is not yet time.
    on_tick-cases :
        (t later : ℕ) (s : LoopState)
        → (on_tick fl t later s ≡ after_watchdog later (after_pulses t s))
          ⊎ (((s.idle_silenced ≡ true) ⊎ (t - s.last_packet < watchdog_idle))
              × (on_tick fl t later s ≡ after_pulses t s))
    unfolding on_tick
    on_tick-cases t later s =
        let s' = after_pulses t s in
        let f = after_pulses-Flags t s in
        let due = not s'.idle_silenced && leb watchdog_idle (t - s'.last_packet) in
        elim (Bool-cases due) [
          | inl e ↦ inl (if_true due _ _ e)
          | inr e ↦ inr (reason s'.idle_silenced s'.last_packet f e, if_false due _ _ e)
        ]
      where
        reason :
            (b : Bool) (p : ℕ)
            → (b ≡ s.idle_silenced) × (p ≡ s.last_packet)
            → (not b && leb watchdog_idle (t - p)) ≡ false
            → (s.idle_silenced ≡ true) ⊎ (t - s.last_packet < watchdog_idle)
        reason true p f e = inl (sym f.0)
        reason false p f e = inr (ground (arith, e, f.1))

    after_watchdog-last_packet :
        (later : ℕ) (s : LoopState) → (after_watchdog later s).last_packet ≡ s.last_packet
    unfolding silence_all
    after_watchdog-last_packet later s =
        (quench_kept fl (Flags s.idle_silenced s.last_packet)
          (Flags-IsStable s.idle_silenced s.last_packet) later (active fl s.last_sent) s
          (refl, refl)).1

    pub on_tick-last_packet :
        (t later : ℕ) (s : LoopState) → (on_tick fl t later s).last_packet ≡ s.last_packet
    on_tick-last_packet t later s = elim (on_tick-cases t later s) [
      | inl e ↦
          ap (λ (u : LoopState). u.last_packet) e
          ∙ after_watchdog-last_packet later (after_pulses t s)
          ∙ (after_pulses-Flags t s).1
      | inr (r, e) ↦ ap (λ (u : LoopState). u.last_packet) e ∙ (after_pulses-Flags t s).1
    ]

    -- After a tick the motors are silenced, or it is not two seconds after the last packet.
    pub on_tick_watched :
        (t later : ℕ) (s : LoopState)
        → ((on_tick fl t later s).idle_silenced ≡ true) ⊎ (t - s.last_packet < watchdog_idle)
    on_tick_watched t later s = elim (on_tick-cases t later s) [
      | inl e ↦ inl (ap (λ (u : LoopState). u.idle_silenced) e)
      | inr (inl r, e) ↦
          inl (ap (λ (u : LoopState). u.idle_silenced) e ∙ (after_pulses-Flags t s).0 ∙ r)
      | inr (inr r, e) ↦ inr r
    ]

    after_pulses_off :
        (t : ℕ) (s : LoopState)
        → (s.idle_silenced ≡ false) ⊎ ((j : ℕ) → KnownOff fl j s)
        → ((after_pulses t s).idle_silenced ≡ false) ⊎ ((j : ℕ) → KnownOff fl j (after_pulses t s))
    after_pulses_off t s (inl h) = inl ((after_pulses-Flags t s).0 ∙ h)
    after_pulses_off t s (inr h) =
        inr (λ j. quench-KnownOff fl zero_off j t (expired fl t s.pulse_until) s (inr (h j)))

    pub on_tick-IsKept : (t later : ℕ) (s : LoopState) → IsKept s → IsKept (on_tick fl t later s)
    on_tick-IsKept t later s k = record {
      mirrors = on_tick-Mirrors fl t later s k.mirrors;
      off_if_silenced = elim (on_tick-cases t later s) [
        | inl e ↦ inr (λ j.
            subst (KnownOff fl j) (sym e)
              (silence_all-KnownOff fl zero_off j later (after_pulses t s)))
        | inr (r, e) ↦
            subst (λ u. (u.idle_silenced ≡ false) ⊎ ((j : ℕ) → KnownOff fl j u)) (sym e)
              (after_pulses_off t s k.off_if_silenced)
      ];
    }
