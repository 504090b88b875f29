-- ===== src/Traits/Health/Window.antt =====
-- The pruned queue against the whole history of samples.
use everything_imu.Prelude.{
  ℕ, ◌-◌, ◌≤◌, ◌≡◌, refl, sym, ap, ◌∙◌, List, [], ◌∷◌, ◌++◌, length, Bool, true, false,
  if◌then◌else◌, arith, All, append-nil, append_assoc,
}
use everything_imu.Traits.Health.{
  DeviceHealth, disconnected, HealthClassifier, new, cutoff, prune, record_sample,
  record_disconnect, classify, is_recent, verdict,
}
use everything_imu.Traits.Health.History.{
  since, last, IsClock, Event, recorded, times, ends_lost, snoc-IsClock, All-raise, last-snoc,
  since-snoc, prune-seen, sample, lost,
}

-- The queue holds the times of `seen` from `lo` on, `p` is the last of them, and the settings of `start`
-- are kept.
record Keeps (start : HealthClassifier) (p lo : ℕ) (gone : Bool) (seen : List ℕ)
    (c : HealthClassifier) : Type 0 where
  queue : c.samples ≡ since lo seen
  clock : IsClock start.window seen
  below : All (λ u. u ≤ p) seen
  limit : lo ≤ p - start.window
  enough : start.window ≤ p
  rate : c.target_hz ≡ start.target_hz
  width : c.window ≡ start.window
  late : c.no_imu_after ≡ start.no_imu_after
  latest : c.last_seen ≡ last seen
  state : c.is_disconnected ≡ gone

sample-IsClock :
    (start : HealthClassifier) (p lo t : ℕ) (gone : Bool) (seen : List ℕ) (c : HealthClassifier)
    → p ≤ t
    → Keeps start p lo gone seen c
    → IsClock start.window (seen ++ t ∷ [])
sample-IsClock start p lo t gone seen c le k =
    snoc-IsClock start.window p t seen k.clock k.below le (omega (arith, k.enough, le))

sample-Keeps :
    (start : HealthClassifier) (p lo t : ℕ) (gone : Bool) (seen : List ℕ) (c : HealthClassifier)
    → p ≤ t
    → Keeps start p lo gone seen c
    → Keeps start t (t - start.window) false (seen ++ t ∷ []) (record_sample c t)
unfolding record_sample
sample-Keeps start p lo t gone seen c le k =
    let clock = sample-IsClock start p lo t gone seen c le k in
    record {
      queue =
          ap (λ w. prune (cutoff w t) (c.samples ++ t ∷ [])) k.width
          ∙ ap (λ ts. prune (cutoff start.window t) (ts ++ t ∷ [])) k.queue
          ∙ ap (λ ts. prune (cutoff start.window t) ts)
              (since-snoc lo t seen (omega (arith, k.limit, le)))
          ∙ prune-seen start.window lo t (seen ++ t ∷ []) clock (omega (arith, k.enough, le))
              (omega (arith, k.limit, le));
      clock = clock;
      below = All-raise p t seen le k.below;
      limit = omega arith;
      enough = omega (arith, k.enough, le);
      rate = k.rate;
      width = k.width;
      late = k.late;
      latest = sym (last-snoc t seen);
      state = refl;
    }

-- The verdict on the whole history: a disconnect, or what the samples of the last window say.
abbrev judged : HealthClassifier → Bool → List ℕ → ℕ → DeviceHealth
judged start gone seen now =
    if gone
    then disconnected
    else verdict start.target_hz (length (since (now - start.window) seen))
        (is_recent (last seen) start.no_imu_after now)

classify-Keeps :
    (start : HealthClassifier) (p lo now : ℕ) (gone : Bool) (seen : List ℕ) (c : HealthClassifier)
    → p ≤ now
    → Keeps start p lo gone seen c
    → (classify c now).1 ≡ judged start gone seen now
unfolding classify
classify-Keeps start p lo now true seen c le k = rw k.state
classify-Keeps start p lo now false seen c le k = rw (
  k.state,
  k.rate,
  k.width,
  k.late,
  k.latest,
  k.queue,
  prune-seen start.window lo now seen k.clock (omega (arith, k.enough, le))
      (omega (arith, k.limit, le)),
)

lost-Keeps :
    (start : HealthClassifier) (p lo : ℕ) (gone : Bool) (seen : List ℕ) (c : HealthClassifier)
    → Keeps start p lo gone seen c
    → Keeps start p lo true seen (record_disconnect c)
unfolding record_disconnect
lost-Keeps start p lo gone seen c k = record {
  queue = k.queue;
  clock = k.clock;
  below = k.below;
  limit = k.limit;
  enough = k.enough;
  rate = k.rate;
  width = k.width;
  late = k.late;
  latest = k.latest;
  state = refl;
}

recorded-classify :
    (start : HealthClassifier) (p lo now : ℕ) (gone : Bool) (seen : List ℕ) (c : HealthClassifier)
    (events : List Event)
    → IsClock p (times events ++ now ∷ [])
    → Keeps start p lo gone seen c
    → (classify (recorded c events) now).1
      ≡ judged start (ends_lost gone events) (seen ++ times events) now
unfolding recorded
recorded-classify start p lo now gone seen c [] (le, h) k =
    classify-Keeps start p lo now gone seen c le k
    ∙ ap (λ ts. judged start gone ts now) (sym (append-nil seen))
recorded-classify start p lo now gone seen c (sample t ∷ events) (le, h) k =
    recorded-classify start t (t - start.window) now false (seen ++ t ∷ []) (record_sample c t)
      events h (sample-Keeps start p lo t gone seen c le k)
    ∙ ap (λ ts. judged start (ends_lost false events) ts now)
        (append_assoc seen (t ∷ []) (times events))
recorded-classify start p lo now gone seen c (lost ∷ events) h k =
    recorded-classify start p lo now true seen (record_disconnect c) events h
      (lost-Keeps start p lo gone seen c k)

-- For a new classifier, samples at times that do not go back (the first at least one second after the
-- clock's zero), and disconnects in between, the verdict at a later `now` is "disconnected" if the last
-- event is a disconnect. Else it is "healthy" if the samples of the last second, counted in the
-- whole history, are at least nine tenths of the target rate; otherwise "laggy" if there is one, or if
-- the last sample is less than two seconds old, and "no IMU" if neither. The pruned queue loses nothing.
pub recorded-classify_lem :
    (target_hz now : ℕ) (events : List Event)
    → IsClock 1000 (times events ++ now ∷ [])
    → (classify (recorded (new target_hz) events) now).1 ≡ (
        if ends_lost false events
        then disconnected
        else verdict target_hz
            (length (since (now - 1000) (times events)))
            (is_recent (last (times events)) 2000 now))
unfolding new
recorded-classify_lem target_hz now events h =
    recorded-classify (new target_hz) 1000 0 now false [] (new target_hz) events h (record {
      queue = refl;
      clock = tt;
      below = tt;
      limit = omega arith;
      enough = omega arith;
      rate = refl;
      width = refl;
      late = refl;
      latest = refl;
      state = refl;
    })
