-- ===== src/Core/Pipeline/Stages.antt =====
-- crates/core/src/pipeline.rs: the announcement of the sensor as stages.
use everything_imu.Prelude.{
  ℕ, List, [], ◌∷◌, ◌++◌, Option, none, some, Bool, true, false, not, ◌&&◌, ◌||◌, ◌≡◌, ◌⊎◌, inl,
  inr, refl, sym, ap, ◌∙◌, if_cases, Option-cases, arith,
}
use everything_imu.Maps.{some-injective}
use everything_imu.Slices.{◌>>=◌}
use everything_imu.Core.Pipeline.{
  Note, unconfirmed, sensor_info, feature_flags, rotation_and_accel, magnetometer, battery_level,
  user_action, Pipeline, Outside, is_config, note, announce_info, announce_flags, announce,
}

-- What the server knows of the sensor in one confirmed connection.
pub data Stage : Type 0 where
  fresh informed flagged : Stage

-- The flags come once, behind a description of the sensor; an unconfirmed event starts anew.
abbrev pub advance : Stage → Note → Option Stage
advance s unconfirmed = some fresh
advance fresh (sensor_info m) = some informed
advance informed (sensor_info m) = some informed
advance flagged (sensor_info m) = some flagged
advance informed feature_flags = some flagged
advance fresh feature_flags = none
advance flagged feature_flags = none
advance s rotation_and_accel = some s
advance s (magnetometer m) = some s
advance s (battery_level f) = some s
advance s (user_action k) = some s

abbrev pub protocol : Stage → List Note → Option Stage
protocol s [] = some s
protocol s (n ∷ ns) = advance s n >>= λ t. protocol t ns

protocol-append :
    (s t : Stage) (ns : List Note) (n : Note)
    → protocol s ns ≡ some t
    → protocol s (ns ++ n ∷ []) ≡ advance t n
protocol-append s t [] n h = bind_some (advance s n) ∙ ap (λ u. advance u n) (some-injective h)
  where
    bind_some : (o : Option Stage) → (o >>= λ u. some u) ≡ o
    bind_some none = refl
    bind_some (some u) = refl
protocol-append s t (m ∷ ns) n h = elim (Option-cases (advance s m)) [
  | inl e ↦ absurd (no_stage (sym (ap (λ o. o >>= λ u. protocol u ns) e) ∙ h))
  | inr (u, e) ↦
      ap (λ o. o >>= λ u. protocol u (ns ++ n ∷ [])) e
      ∙ protocol-append u t ns n (sym (ap (λ o. o >>= λ u. protocol u ns) e) ∙ h)
]
  where
    no_stage : {u : Stage} → none ≡ some u → ⊥
    no_stage e = ground (arith, e)

abbrev pub stage_of : (info flags : Bool) → Stage
stage_of false flags = fresh
stage_of true false = informed
stage_of true true = flagged

abbrev pub stage : Pipeline → Stage
stage p = stage_of p.sensor_info_sent p.feature_flags_sent

-- The packets follow the protocol, up to the stage that the two flags tell, and there are no feature
-- flags without a description of the sensor.
pub record IsAnnounced (p : Pipeline) : Type 0 where
  pub follows : protocol fresh p.sent ≡ some (stage p)
  pub in_order : (p.sensor_info_sent ≡ true) ⊎ (p.feature_flags_sent ≡ false)

-- A packet that is no announcement.
pub noted :
    (n : Note) (p : Pipeline)
    → ((s : Stage) → advance s n ≡ some s)
    → IsAnnounced p
    → IsAnnounced (note n p)
noted n p h a = record {
  follows = protocol-append fresh (stage p) p.sent n a.follows ∙ h (stage p);
  in_order = a.in_order;
}

advance_info :
    (m : ℕ) (info flags : Bool)
    → (info ≡ true) ⊎ (flags ≡ false)
    → advance (stage_of info flags) (sensor_info m) ≡ some (stage_of true flags)
advance_info m true true h = refl
advance_info m true false h = refl
advance_info m false false h = refl
advance_info m false true (inl h) = absurd (ground (arith, h))
advance_info m false true (inr h) = absurd (ground (arith, h))

advance_flags :
    (info flags : Bool)
    → (info && not flags) ≡ true
    → (info ≡ true) × (advance (stage_of info flags) feature_flags ≡ some (stage_of info true))
advance_flags true true h = absurd (ground (arith, h))
advance_flags true false h = (refl, refl)
advance_flags false flags h = absurd (ground (arith, h))

announce_info-IsAnnounced :
    (mag : ℕ) (ok : Bool) (p : Pipeline) → IsAnnounced p → IsAnnounced (announce_info mag ok p)
announce_info-IsAnnounced mag ok p a =
    if_cases IsAnnounced (not p.sensor_info_sent || not (is_config p.last_sensor_mag_config mag))
      (λ e. if_cases IsAnnounced ok (λ f. informed_now) (λ f. a)) (λ e. a)
  where
    informed_now : IsAnnounced (record (note (sensor_info mag) p) {
      sensor_info_sent = true;
      last_sensor_mag_config = some mag;
    })
    informed_now = record {
      follows =
          protocol-append fresh (stage p) p.sent (sensor_info mag) a.follows
          ∙ advance_info mag p.sensor_info_sent p.feature_flags_sent a.in_order;
      in_order = inl refl;
    }

announce_flags-IsAnnounced :
    (ok : Bool) (p : Pipeline) → IsAnnounced p → IsAnnounced (announce_flags ok p)
announce_flags-IsAnnounced ok p a =
    if_cases IsAnnounced (p.sensor_info_sent && not p.feature_flags_sent)
      (λ e.
        if_cases IsAnnounced ok
          (λ f. record {
            follows =
                protocol-append fresh (stage p) p.sent feature_flags a.follows
                ∙ (advance_flags p.sensor_info_sent p.feature_flags_sent e).1;
            in_order = inl (advance_flags p.sensor_info_sent p.feature_flags_sent e).0;
          })
          (λ f. a))
      (λ e. a)

pub announce-IsAnnounced : (o : Outside) (p : Pipeline) → IsAnnounced p → IsAnnounced (announce o p)
unfolding announce
announce-IsAnnounced o p a =
    if_cases IsAnnounced (not o.confirmed)
      (λ e. record {
        follows = protocol-append fresh (stage p) p.sent unconfirmed a.follows;
        in_order = inr refl;
      })
      (λ e. announce_flags-IsAnnounced o.flags_ok _ (announce_info-IsAnnounced _ o.info_ok p a))
