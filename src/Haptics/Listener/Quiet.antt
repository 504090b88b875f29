-- ===== src/Haptics/Listener/Quiet.antt =====
-- crates/osc-haptics/src/listener.rs: the watchdog turns every motor off when no packet comes.
use everything_imu.Prelude.{
  ℕ, suc, ◌+◌, ◌-◌, ◌*◌, ◌≤◌, ◌<◌, List, [], ◌∷◌, Option, none, some, Bool, true, false, ◌≡◌, ◌⊎◌,
  inl, inr, refl, ◌∙◌, arith,
}
use mathlib.Core.Path.{subst}
use everything_imu.Maps.{lookup}
use everything_imu.Haptics.Mapping.{Floats, f_zero, HapticRule}
use everything_imu.Haptics.Sniffer.{Sniffer}
use everything_imu.Haptics.Listener.{
  LoopState, new_state, next_wake, min_tick, watchdog_idle, active, silence_all, on_tick, OscPacket,
  Event, config_dropped, config_changed, datagram, recv_error, timeout, on_datagram, serve,
}
use everything_imu.Haptics.Listener.Stable.{quench_kept, handle_packet_kept}
use everything_imu.Haptics.Listener.Silence.{KnownOff, silence_all-KnownOff}
use everything_imu.Haptics.Listener.Motors.{Mirrors, IsOff, Mirrors-IsStable}
use everything_imu.Haptics.Listener.Ticks.{
  IsKept, Flags, Flags-IsStable, min_tick-le, on_tick-last_packet, on_tick_watched, on_tick-IsKept,
}

module _ (fl : Floats) where
  -- Each tick comes no sooner than the loop asked for; `now` is the time before the first one.
  pub data Quiet (s : LoopState) (now : ℕ) : LoopState → ℕ → ℕ → Type 0 where
    still : Quiet s now s now 0
    tick :
        {u : LoopState} {t n : ℕ} (t' later : ℕ)
        → Quiet s now u t n
        → t + next_wake u t ≤ t'
        → Quiet s now (on_tick fl t' later u) t' (suc n)

  module _ (zero_off : fl.lt f_zero f_zero ≡ false) where
    module _ (rules : List HapticRule) (discovery : Bool) where
      on_datagram-IsKept :
          (now : ℕ) (o : Option OscPacket) (s : LoopState)
          → Mirrors s
          → IsKept fl (on_datagram fl rules discovery now o s)
      unfolding on_datagram
      on_datagram-IsKept now none s m = record { mirrors = m; off_if_silenced = inl refl }
      on_datagram-IsKept now (some p) s m = record {
        mirrors = handle_packet_kept fl Mirrors (Mirrors-IsStable fl) rules discovery p _ m;
        off_if_silenced =
            inl
              (handle_packet_kept fl (Flags fl false now) (Flags-IsStable fl false now) rules
                discovery p (record s { last_packet = now; idle_silenced = false }) (refl, refl)).0;
      }

      serve-IsKept :
          (es : List Event) (s : LoopState)
          → IsKept fl s
          → IsKept fl (serve fl rules discovery es s).0
      unfolding serve silence_all
      serve-IsKept [] s k = k
      serve-IsKept (config_dropped now ∷ es) s k = record {
        mirrors =
            quench_kept fl Mirrors (Mirrors-IsStable fl) now (active fl s.last_sent) s k.mirrors;
        off_if_silenced = inr (λ j. silence_all-KnownOff fl zero_off j now s);
      }
      serve-IsKept (config_changed ∷ es) s k = k
      serve-IsKept (datagram now p ∷ es) s k =
          serve-IsKept es _ (on_datagram-IsKept now p s k.mirrors)
      serve-IsKept (recv_error ∷ es) s k = serve-IsKept es s k
      serve-IsKept (timeout now later ∷ es) s k =
          serve-IsKept es _ (on_tick-IsKept fl zero_off now later s k)

    record Progress (s : LoopState) (now : ℕ) (u : LoopState) (t n : ℕ) : Type 0 where
      kept : IsKept fl u
      same_packet : u.last_packet ≡ s.last_packet
      passed : now + n * min_tick ≤ t
      watched : (n ≡ 0) ⊎ ((u.idle_silenced ≡ true) ⊎ (t - s.last_packet < watchdog_idle))

    Quiet-Progress :
        {s : LoopState} {now : ℕ} {u : LoopState} {t n : ℕ}
        → IsKept fl s
        → Quiet s now u t n
        → Progress s now u t n
    Quiet-Progress k still = record {
      kept = k;
      same_packet = refl;
      passed = omega arith;
      watched = inl refl;
    }
    Quiet-Progress {s} k (tick {u} {t} {n} t' later q h) =
        let p = Quiet-Progress k q in
        record {
          kept = on_tick-IsKept fl zero_off t' later u p.kept;
          same_packet = on_tick-last_packet fl zero_off t' later u ∙ p.same_packet;
          passed = omega (arith, p.passed, min_tick-le fl u t);
          watched = inr (
              subst (λ l. ((on_tick fl t' later u).idle_silenced ≡ true) ⊎ (t' - l < watchdog_idle))
                p.same_packet (on_tick_watched fl zero_off t' later u));
        }

    -- Of a kept state in which a tick has found two seconds passed.
    quiet-KnownOff :
        {s u : LoopState} {now t : ℕ} (n : ℕ)
        → s.last_packet + watchdog_idle ≤ now + n * min_tick
        → 0 < n
        → Progress s now u t n
        → (j : ℕ) → IsOff fl (lookup j u.sink)
    quiet-KnownOff {s} {u} {t = t} n due some_tick p j = by_watch p.watched p.kept.off_if_silenced
      where
        by_watch :
            (n ≡ 0) ⊎ ((u.idle_silenced ≡ true) ⊎ (t - s.last_packet < watchdog_idle))
            → (u.idle_silenced ≡ false) ⊎ ((j : ℕ) → KnownOff fl j u)
            → IsOff fl (lookup j u.sink)
        by_watch (inl z) o = absurd (omega (arith, z))
        by_watch (inr (inr early)) o = absurd (omega (arith, early, p.passed))
        by_watch (inr (inl on)) (inl off) = absurd (ground (arith, on, off))
        by_watch (inr (inl on)) (inr h) = subst (IsOff fl) (p.kept.mirrors j) (h j)

  new_state-IsKept : (now : ℕ) (sn : Option Sniffer) → IsKept fl (new_state now [] sn)
  unfolding new_state
  new_state-IsKept now sn = record { mirrors = λ j. refl; off_if_silenced = inl refl }

  -- Let the first session of the bridge have gone through any packets and ticks, and let then only
  -- ticks come, none sooner than the loop asked for. When at least one tick has come, and so many
  -- that at one millisecond each they reach the time two seconds after the last packet, the last
  -- command to every device, if there was one, is an intensity that is not above 0.0. Of the
  -- floating-point numbers this needs that 0.0 is not above 0.0.
  pub Quiet-IsOff :
      (zero_off : fl.lt f_zero f_zero ≡ false)
      → (rules : List HapticRule) (discovery : Bool) (began : ℕ) (sniffer : Option Sniffer)
        (es : List Event) {u : LoopState} {now t : ℕ} (n : ℕ)
      → let s = (serve fl rules discovery es (new_state began [] sniffer)).0 in
        Quiet s now u t n
        → s.last_packet + watchdog_idle ≤ now + n * min_tick
        → 0 < n
        → (j : ℕ) → IsOff fl (lookup j u.sink)
  Quiet-IsOff zero_off rules discovery began sniffer es n q due some_tick j =
      quiet-KnownOff zero_off n due some_tick
        (Quiet-Progress zero_off
          (serve-IsKept zero_off rules discovery es _ (new_state-IsKept began sniffer)) q)
        j
