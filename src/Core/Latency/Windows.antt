-- ===== src/Core/Latency/Windows.antt =====
-- crates/core/src/latency.rs: the bounded windows against the histories that forget nothing.
use everything_imu.Prelude.{
  ℕ, ◌-◌, ◌<◌, min, max, List, [], ◌∷◌, ◌++◌, length, Option, none, some, ◌≡◌, refl, ap, ◌∙◌, sym,
  ◌==◌, arith, append-nil, append_assoc, Option-cases, inl, inr,
}
use everything_imu.Core.Latency.{
  LatencyHistory, new_history, push, clear, latest, history_len, history_is_empty, back,
  LatencyTracker, new_tracker, record_arrival, record_send, window, micros,
}
use everything_imu.Core.Latency.Newest.{
  newest, length-newest, newest-push, back-append, back-newest, newest-nil,
}

-- The calls that change a history.
pub data Change (A : Type 0) : Type 0 where
  pushed : A → Change A
  cleared : Change A

module _ {A : Type 0} where
  unfoldable pub changed : LatencyHistory A → List (Change A) → LatencyHistory A
  changed h [] = h
  changed h (pushed x ∷ cs) = changed (push h x) cs
  changed h (cleared ∷ cs) = changed (clear h) cs

  -- All that was pushed since the last `clear`.
  abbrev pub entries : List A → List (Change A) → List A
  entries xs [] = xs
  entries xs (pushed x ∷ cs) = entries (xs ++ x ∷ []) cs
  entries xs (cleared ∷ cs) = entries [] cs

  -- The history holds the newest of the entries.
  record Tracks (room : ℕ) (xs : List A) (h : LatencyHistory A) : Type 0 where
    room_is : h.cap ≡ room
    held : h.samples ≡ newest room xs

  push-Tracks :
      (room : ℕ) (xs : List A) (h : LatencyHistory A) (x : A)
      → 0 < room
      → Tracks room xs h
      → Tracks room (xs ++ x ∷ []) (push h x)
  unfolding push
  push-Tracks room xs h x pos t = record {
    room_is = t.room_is;
    held = rw (t.room_is, t.held) (newest-push room xs x pos);
  }

  changed-Tracks :
      (room : ℕ) (xs : List A) (h : LatencyHistory A) (cs : List (Change A))
      → 0 < room
      → Tracks room xs h
      → Tracks room (entries xs cs) (changed h cs)
  unfolding changed clear
  changed-Tracks room xs h [] pos t = t
  changed-Tracks room xs h (pushed x ∷ cs) pos t =
      changed-Tracks room (xs ++ x ∷ []) (push h x) cs pos (push-Tracks room xs h x pos t)
  changed-Tracks room xs h (cleared ∷ cs) pos t =
      changed-Tracks room [] (clear h) cs pos
        (record { room_is = t.room_is; held = sym (newest-nil room) })

  -- After any pushes and clears, a `LatencyHistory` of capacity `cap` (at least 1) is the list of
  -- everything pushed since the last clear, seen through its newest `cap` entries: `snapshot` is
  -- these entries, oldest first, `latest` is the last entry of all, `len` is the number of the
  -- entries but at most the capacity, `is_empty` says whether there are none, and the capacity
  -- stays.
  pub changed-newest :
      (cap : ℕ) (cs : List (Change A))
      → let h = changed (new_history cap) cs in
        let all = entries [] cs in
        (h.samples ≡ newest (max cap 1) all)
        × (latest h ≡ back all)
        × (history_len h ≡ min (max cap 1) (length all))
        × (history_is_empty h ≡ (length all == 0))
        × (h.cap ≡ max cap 1)
  unfolding new_history latest history_len history_is_empty
  changed-newest cap cs =
      let h = changed (new_history cap) cs in
      let all = entries [] cs in
      let pos : 0 < max cap 1 = omega arith in
      let t : Tracks (max cap 1) all h =
        changed-Tracks (max cap 1) [] (new_history cap) cs pos
          (record { room_is = refl; held = sym (newest-nil (max cap 1)) }) in
      (
        t.held,
        ap back t.held ∙ back-newest (max cap 1) all pos,
        ap length t.held ∙ length-newest (max cap 1) all,
        ground (arith, ap length t.held, length-newest (max cap 1) all),
        t.room_is,
      )

-- The calls that change a tracker.
pub data Event : Type 0 where
  arrival : ℕ → Event
  sent : ℕ → Event

unfoldable pub tracked : LatencyTracker → List Event → LatencyTracker
tracked t [] = t
tracked t (arrival now ∷ es) = tracked (record_arrival t now).0 es
tracked t (sent d ∷ es) = tracked (record_send t d) es

abbrev pub arrivals : List Event → List ℕ
arrivals [] = []
arrivals (arrival now ∷ es) = now ∷ arrivals es
arrivals (sent d ∷ es) = arrivals es

abbrev pub durations : List Event → List ℕ
durations [] = []
durations (arrival now ∷ es) = durations es
durations (sent d ∷ es) = micros d ∷ durations es

-- The intervals between consecutive arrivals.
abbrev pub intervals : List ℕ → List ℕ
intervals [] = []
intervals (a ∷ []) = []
intervals (a ∷ b ∷ ts) = micros (b - a) ∷ intervals (b ∷ ts)

abbrev interval_to : Option ℕ → ℕ → List ℕ
interval_to none now = []
interval_to (some prev) now = micros (now - prev) ∷ []

intervals-append :
    (ts : List ℕ) (now : ℕ) → intervals (ts ++ now ∷ []) ≡ intervals ts ++ interval_to (back ts) now
intervals-append [] now = refl
intervals-append (a ∷ []) now = refl
intervals-append (a ∷ b ∷ ts) now = ap (λ r. micros (b - a) ∷ r) (intervals-append (b ∷ ts) now)

record Follows (ts ds : List ℕ) (t : LatencyTracker) : Type 0 where
  last : t.prev_arrival ≡ back ts
  between : t.intervals_us ≡ newest window (intervals ts)
  sends : t.sends_us ≡ newest window ds

arrival-Follows :
    (ts ds : List ℕ) (t : LatencyTracker) (now : ℕ)
    → Follows ts ds t
    → Follows (ts ++ now ∷ []) ds (record_arrival t now).0
unfolding record_arrival
arrival-Follows ts ds t now f = elim (Option-cases (back ts)) [
  | inl e ↦
      rw (f.last ∙ e, record_arrival)
        (record {
          last = sym (back-append ts now);
          between = rw (intervals-append, e, append-nil) f.between;
          sends = f.sends;
        })
  | inr (p, e) ↦
      rw (f.last ∙ e, record_arrival)
        (record {
          last = sym (back-append ts now);
          between =
              rw (intervals-append, e, f.between)
                (newest-push window (intervals ts) (micros (now - p)) (omega arith));
          sends = f.sends;
        })
]

send-Follows :
    (ts ds : List ℕ) (t : LatencyTracker) (d : ℕ)
    → Follows ts ds t
    → Follows ts (ds ++ micros d ∷ []) (record_send t d)
unfolding record_send
send-Follows ts ds t d f = record {
  last = f.last;
  between = f.between;
  sends = rw f.sends (newest-push window ds (micros d) (omega arith));
}

tracked-Follows :
    (ts ds : List ℕ) (t : LatencyTracker) (es : List Event)
    → Follows ts ds t
    → Follows (ts ++ arrivals es) (ds ++ durations es) (tracked t es)
unfolding tracked
tracked-Follows ts ds t [] f = rw (append-nil, append-nil) f
tracked-Follows ts ds t (arrival now ∷ es) f = rw (← append_assoc ts (now ∷ []) (arrivals es)) (
    tracked-Follows (ts ++ now ∷ []) ds (record_arrival t now).0 es (arrival-Follows ts ds t now f))
tracked-Follows ts ds t (sent d ∷ es) f =
    rw (← append_assoc ds (micros d ∷ []) (durations es))
      (tracked-Follows ts (ds ++ micros d ∷ []) (record_send t d) es (send-Follows ts ds t d f))

pub tracked-newest :
    (es : List Event)
    → let t = tracked new_tracker es in
      (t.intervals_us ≡ newest window (intervals (arrivals es)))
      × (t.sends_us ≡ newest window (durations es))
      × (t.prev_arrival ≡ back (arrivals es))
unfolding new_tracker
tracked-newest es =
    let f =
      tracked-Follows [] [] new_tracker es (record { last = refl; between = refl; sends = refl }) in
    (f.between, f.sends, f.last)
