-- ===== src/Haptics/Listener/Stable.antt =====
-- crates/osc-haptics/src/listener.rs: what every call that handles a packet leaves as it is.
use everything_imu.Prelude.{
  ℕ, List, [], ◌∷◌, ◌++◌, Option, none, some, Bool, true, false, not, ◌&&◌, ltb, if_cases, length,
}
use everything_imu.Maps.{lookup, without}
use everything_imu.Haptics.Mapping.{Floats, f_zero, HapticRule, HapticAction, resolve}
use everything_imu.Haptics.Sniffer.{Sniffer}
use everything_imu.Haptics.Listener.{
  LoopState, is_filtered, written, send, quench, apply_pulse, apply_action, apply_actions, discover,
  first_value, on_value, OscPacket, OscPackets, message, bundle, nil, cons, handle_message,
  handle_packet, handle_content, has_seen, max_seen_addrs,
}

-- A predicate that the elementary changes of the state keep.
pub record IsStable (fl : Floats) (P : LoopState → Type 0) : Type 0 where
  pub writes : (mac v now : ℕ) (s : LoopState) → P s → P (written fl mac v now s)
  pub pulses : (ends : List (ℕ × ℕ)) (s : LoopState) → P s → P (record s { pulse_until = ends })
  pub finds :
      (seen offered : List (List ℕ)) (s : LoopState)
      → P s
      → P (record s { seen_addrs = seen; discovered = offered })
  pub sniffs : (sn : Option Sniffer) (s : LoopState) → P s → P (record s { sniffer = sn })

module _ (fl : Floats) (P : LoopState → Type 0) (st : IsStable fl P) where
  send_kept :
      (s : LoopState) (mac v : ℕ) (force : Bool) (now : ℕ) → P s → P (send fl s mac v force now)
  unfolding send
  send_kept s mac v force now m =
      if_cases P (not force && is_filtered fl (lookup mac s.last_sent) v now) (λ e. m)
        (λ e. st.writes mac v now s m)

  pub quench_kept : (now : ℕ) (macs : List ℕ) (s : LoopState) → P s → P (quench fl now macs s)
  quench_kept now [] s m = m
  quench_kept now (mac ∷ macs) s m = quench_kept now macs _ (
      send_kept (record s { pulse_until = without mac s.pulse_until }) mac f_zero true now
        (st.pulses (without mac s.pulse_until) s m))

  apply_pulse_kept :
      (p : Option ℕ) (mac v now : ℕ) (s : LoopState) → P s → P (apply_pulse fl p mac v now s)
  apply_pulse_kept none mac v now s m = send_kept _ mac v false now (st.pulses _ s m)
  apply_pulse_kept (some ms) mac v now s m = send_kept _ mac v true now (st.pulses _ s m)

  apply_actions_kept :
      (actions : List HapticAction) (now : ℕ) (s : LoopState)
      → P s
      → P (apply_actions fl actions now s)
  unfolding apply_action
  apply_actions_kept [] now s m = m
  apply_actions_kept (a ∷ more) now s m =
      apply_actions_kept more now _ (apply_pulse_kept a.pulse_ms a.device_mac a.intensity now s m)

  discover_kept :
      (discovery : Bool) (addr : List ℕ) (s : LoopState) → P s → P (discover discovery addr s)
  unfolding discover
  discover_kept false addr s m = m
  discover_kept true addr s m =
      if_cases P (ltb (length s.seen_addrs) max_seen_addrs && not (has_seen addr s.seen_addrs))
        (λ e. st.finds (addr ∷ s.seen_addrs) (s.discovered ++ addr ∷ []) s m) (λ e. m)

  module _ (rules : List HapticRule) (discovery : Bool) where
    on_value_kept :
        (addr : List ℕ) (o : Option ℕ) (seen_at now : ℕ) (s : LoopState)
        → P s
        → P (on_value fl rules addr o seen_at now s)
    on_value_kept addr none seen_at now s m = m
    on_value_kept addr (some v) seen_at now s m =
        apply_actions_kept (resolve fl rules addr v) now _ (st.sniffs _ s m)

    mutual
      unfolding handle_packet handle_message

      pub handle_packet_kept :
          (p : OscPacket) (s : LoopState) → P s → P (handle_packet fl rules discovery p s)
      handle_packet_kept (message addr args seen_at now) s m =
          on_value_kept addr (first_value fl args) seen_at now _ (discover_kept discovery addr s m)
      handle_packet_kept (bundle content) s m = handle_content_kept content s m

      handle_content_kept :
          (ps : OscPackets) (s : LoopState) → P s → P (handle_content fl rules discovery ps s)
      handle_content_kept nil s m = m
      handle_content_kept (cons p ps) s m = handle_content_kept ps _ (handle_packet_kept p s m)
