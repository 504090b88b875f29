-- ===== src/Tests/Haptic.antt =====
-- The haptic bridge: a touch turns a motor on, and silence turns it off.
use everything_imu.Prelude.{
  ℕ, ◌≤◌, length, ◌+◌, ◌-◌, List, [], ◌∷◌, ◌++◌, none, some, true, false, ltb, ◌≡◌, refl, arith,
}
use everything_imu.Maps.{lookup}
use everything_imu.Haptics.Mapping.{Floats, HapticRule, pulse, osc_bool, osc_value_to_f32, resolve}
use everything_imu.Haptics.Config.{
  HapticConfig, default_config, vrchat_param_prefix, normalize_rules, normalize_address,
}
use everything_imu.Haptics.Config.Idempotent.{normalize_rules-normalize_rules}
use everything_imu.Haptics.Listener.{
  LoopState, new_state, max_tick, message, Event, datagram, serve, on_tick, send, discover,
  on_datagram, handle_packet, handle_message, apply_action,
}
use everything_imu.Haptics.Sniffer.{Sniffer, new_sniffer, ingest, clear, has_address}
use everything_imu.Haptics.Sniffer.Entries.{IsDistinct}
use everything_imu.Haptics.Sniffer.Bounded.{IsLatest, ingested, ingested-ingest}
use everything_imu.Haptics.Listener.Motors.{IsOff}
use everything_imu.Haptics.Listener.Ticks.{next_wake-le}
use everything_imu.Haptics.Listener.Quiet.{Quiet, still, tick, Quiet-IsOff}

-- The bit patterns of floating-point numbers that are not negative have the order of the numbers.
abbrev patterns : Floats
patterns = record {
  lt = ltb;
  is_nan = λ a. false;
  mul = λ a b. a;
  sub = λ a b. a - b;
  abs = λ a. a;
  of_int = λ n. n;
  of_double = λ n. n;
}

abbrev touch_rule : HapticRule
touch_rule = record { osc_address = 47 ∷ 116 ∷ []; device_mac = 7; mode = pulse 150 }

abbrev touched : List Event
touched = datagram 5 (some (message (47 ∷ 116 ∷ []) (osc_bool true ∷ []) 5 5)) ∷ []

abbrev session : LoopState
session = (serve patterns (touch_rule ∷ []) true touched (new_state 0 [] none)).0

turns_on : session.sink ≡ (7, 0x3F800000) ∷ []
unfolding serve on_datagram handle_packet handle_message apply_action send discover new_state
    resolve osc_value_to_f32
turns_on = refl

turns_on_at : session.last_packet ≡ 5
unfolding serve on_datagram handle_packet handle_message apply_action send discover new_state
    resolve osc_value_to_f32
turns_on_at = refl

-- The tick after 2.25 seconds.
abbrev late : ℕ
late = 2000000000 + max_tick

one_tick : Quiet patterns session 2000000000 (on_tick patterns late late session) late 1
one_tick = tick late late still (omega (arith, next_wake-le patterns session 2000000000))

Quiet-IsOff_example : IsOff patterns (lookup 7 (on_tick patterns late late session).sink)
Quiet-IsOff_example =
    Quiet-IsOff patterns refl (touch_rule ∷ []) true 0 none touched 1 one_tick
      (omega (arith, turns_on_at)) (omega arith) 7

-- A table for two addresses that a third address comes to.
abbrev three_calls : List (List ℕ × (ℕ × ℕ))
three_calls = (1 ∷ [], (5, 10)) ∷ (2 ∷ [], (6, 20)) ∷ (1 ∷ [], (7, 30)) ∷ []

abbrev sniffed : Sniffer
sniffed = ingest patterns (ingested patterns (new_sniffer 2) three_calls) (3 ∷ []) 8 40

-- The address seen longest ago makes place.
evicts_oldest : has_address (2 ∷ []) sniffed.entries ≡ false
unfolding ingest ingested new_sniffer
evicts_oldest = refl

ingested-ingest_example :
    (length sniffed.entries ≤ 2)
    × IsDistinct sniffed.entries
    × IsLatest patterns (3 ∷ []) 8 40 sniffed.entries
ingested-ingest_example = ingested-ingest patterns 2 three_calls (3 ∷ []) 8 40

empties : length (clear sniffed).entries ≡ 0
unfolding clear
empties = refl

-- " Vest", and a rule for it.
abbrev vest_rule : HapticRule
vest_rule = record touch_rule { osc_address = 32 ∷ 86 ∷ 101 ∷ 115 ∷ 116 ∷ [] }

abbrev vest_config : HapticConfig
vest_config = record default_config { enabled = true; rules = vest_rule ∷ touch_rule ∷ [] }

prefixes :
    normalize_address vest_rule.osc_address ≡ vrchat_param_prefix ++ 86 ∷ 101 ∷ 115 ∷ 116 ∷ []
unfolding normalize_address
prefixes = refl

normalize_rules-normalize_rules_example :
    normalize_rules (normalize_rules vest_config) ≡ normalize_rules vest_config
normalize_rules-normalize_rules_example = normalize_rules-normalize_rules vest_config
