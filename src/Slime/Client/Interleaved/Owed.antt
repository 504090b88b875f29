-- ===== src/Slime/Client/Interleaved/Owed.antt =====
-- What the tasks owe between two accesses, and how one access changes it.
use everything_imu.Prelude.{
  ℕ, ◌+◌, ◌%◌, ◌^◌, ◌≡◌, refl, sym, ap, ◌∙◌, List, [], ◌∷◌, ◌++◌, true, false, if◌then◌else◌,
  Bool-cases, inl, inr, arith,
}
use mathlib.Core.Path.{subst}
use everything_imu.Slime.Client.{SlimeClient, HandshakeEvent}
use everything_imu.Slime.Client.Tasks.{handle_inbound}
use everything_imu.Slime.Client.History.{one_if}
use everything_imu.Slime.Client.Handshake.{SameLink}
use everything_imu.Slime.Client.Interleaved.{
  Receiver, swapping, counting, announcing, handling, Watchdog, sleeping, comparing, clearing,
  unbundling, bumping, stamping, telling, checking, resending, Tasks, push_event,
}
use everything_imu.Slime.Client.Interleaved.Counts.{
  count_found, count_lost, IsNumbered, count_found-push, count_lost-push, IsNumbered-push,
}

-- The event that a task still has to send for a change of the flag.
abbrev pub owed_found : Receiver → ℕ
owed_found (counting payload) = 1
owed_found (announcing payload reset_count) = 1
owed_found r = 0

abbrev pub owed_lost : Watchdog → ℕ
owed_lost unbundling = 1
owed_lost bumping = 1
owed_lost (stamping new_count) = 1
owed_lost (telling new_count) = 1
owed_lost w = 0

-- The loss that the counter has and no event tells yet.
abbrev pub counted_ahead : Watchdog → ℕ
counted_ahead (stamping new_count) = 1
counted_ahead (telling new_count) = 1
counted_ahead w = 0

-- What the watchdog has read still holds.
abbrev pub StillHolds : SlimeClient → Watchdog → Type 0
StillHolds c clearing = c.handshake_confirmed ≡ true
StillHolds c (stamping new_count) = new_count ≡ (count_lost c.events + 1) % 2 ^ 64
StillHolds c (telling new_count) = new_count ≡ (count_lost c.events + 1) % 2 ^ 64
StillHolds c w = Unit {0}

pub record IsPaired (t : Tasks) : Type 0 where
  pub paired :
      count_found t.client.events + owed_found t.receiver
      ≡ count_lost t.client.events + owed_lost t.watchdog + one_if t.client.handshake_confirmed
  pub counted :
      t.client.handshake_reset_count
      ≡ (count_lost t.client.events + counted_ahead t.watchdog) % 2 ^ 64
  pub numbered : IsNumbered 0 t.client.events
  pub holds : StillHolds t.client t.watchdog

abbrev pub tasks : SlimeClient → Receiver → Watchdog → Tasks
tasks c r w = record { client = c; receiver = r; watchdog = w }

-- The parts that the tasks change for an event are the same.
abbrev pub SameFlag : SlimeClient → SlimeClient → Type 0
SameFlag c c' =
    (c.handshake_confirmed ≡ c'.handshake_confirmed)
    × (c.handshake_reset_count ≡ c'.handshake_reset_count)
    × (c.events ≡ c'.events)

pub flag_of : (c c' : SlimeClient) → SameLink c c' → SameFlag c c'
flag_of c c' (b, f, n, e) = (f, n, e)

pub StillHolds-SameFlag :
    (c c' : SlimeClient) (w : Watchdog) → SameFlag c c' → StillHolds c w → StillHolds c' w
StillHolds-SameFlag c c' clearing (f, n, e) h = sym f ∙ h
StillHolds-SameFlag c c' (stamping m) (f, n, e) h = h ∙ ap (λ es. (count_lost es + 1) % 2 ^ 64) e
StillHolds-SameFlag c c' (telling m) (f, n, e) h = h ∙ ap (λ es. (count_lost es + 1) % 2 ^ 64) e
StillHolds-SameFlag c c' sleeping s h = tt
StillHolds-SameFlag c c' (comparing l m) s h = tt
StillHolds-SameFlag c c' unbundling s h = tt
StillHolds-SameFlag c c' bumping s h = tt
StillHolds-SameFlag c c' checking s h = tt
StillHolds-SameFlag c c' resending s h = tt

-- An access that touches neither the flag nor the counter nor the events, of tasks that owe the same.
pub SameFlag-IsPaired :
    (c c' : SlimeClient) (r r' : Receiver) (w w' : Watchdog)
    → SameFlag c c'
    → owed_found r ≡ owed_found r'
    → owed_lost w ≡ owed_lost w'
    → counted_ahead w ≡ counted_ahead w'
    → StillHolds c' w'
    → IsPaired (tasks c r w)
    → IsPaired (tasks c' r' w')
SameFlag-IsPaired c c' r r' w w' (f, n, e) o l k s h = record {
  paired = omega (arith, h.paired, o, l, ap count_found e, ap count_lost e, ap one_if f);
  counted = omega (arith, h.counted, n, k, ap count_lost e);
  numbered = subst (IsNumbered 0) e h.numbered;
  holds = s;
}

pub SameFlag-handle_inbound :
    (c : SlimeClient) (tag : ℕ) (payload : List ℕ) → SameFlag c (handle_inbound c tag payload)
unfolding handle_inbound
SameFlag-handle_inbound c tag payload = ground arith

-- Pushing an event that a task owes.
pub found_pushed :
    (c : SlimeClient) (payload : List ℕ) (n : ℕ) (w : Watchdog)
    → IsPaired (tasks c (announcing payload n) w)
    → IsPaired (tasks (push_event c true n) (handling payload) w)
found_pushed c payload n w h =
    let e : HandshakeEvent = record { confirmed = true; reset_count = n } in
    let found = count_found-push c.events e in
    let lost : count_lost (c.events ++ e ∷ []) ≡ count_lost c.events =
      count_lost-push c.events e ∙ omega arith in
    record {
      paired = omega (arith, h.paired, found, lost);
      counted = omega (arith, h.counted, lost);
      numbered = IsNumbered-push 0 c.events e h.numbered (λ no. absurd (cc));
      holds = kept w h.holds lost;
    }
  where
    kept :
        (w : Watchdog)
        → StillHolds c w
        → count_lost (c.events ++ record { confirmed = true; reset_count = n } ∷ [])
          ≡ count_lost c.events
        → StillHolds (push_event c true n) w
    kept clearing s lost = s
    kept (stamping m) s lost = s ∙ ap (λ k. (k + 1) % 2 ^ 64) (sym lost)
    kept (telling m) s lost = s ∙ ap (λ k. (k + 1) % 2 ^ 64) (sym lost)
    kept sleeping s lost = tt
    kept (comparing l m) s lost = tt
    kept unbundling s lost = tt
    kept bumping s lost = tt
    kept checking s lost = tt
    kept resending s lost = tt

pub lost_pushed :
    (c : SlimeClient) (r : Receiver) (n : ℕ)
    → IsPaired (tasks c r (telling n))
    → IsPaired (tasks (push_event c false n) r checking)
lost_pushed c r n h =
    let e : HandshakeEvent = record { confirmed = false; reset_count = n } in
    let found : count_found (c.events ++ e ∷ []) ≡ count_found c.events =
      count_found-push c.events e ∙ omega arith in
    let lost = count_lost-push c.events e in
    record {
      paired = omega (arith, h.paired, found, lost);
      counted =
          h.counted
          ∙ ap (λ k. k % 2 ^ 64) {y = count_lost (c.events ++ e ∷ []) + 0} (omega (arith, lost));
      numbered =
          IsNumbered-push 0 c.events e h.numbered
            (λ no. h.holds ∙ ap (λ k. k % 2 ^ 64) {y = 0 + count_lost c.events + 1} (omega arith));
      holds = tt;
    }

-- `swap(true)`: the flag was set before, or an event is owed now.
pub swapped :
    (c : SlimeClient) (payload : List ℕ) (w : Watchdog)
    → IsPaired (tasks c (swapping payload) w)
    → IsPaired (
        tasks
          (record c { handshake_confirmed = true })
          (if c.handshake_confirmed then handling payload else counting payload)
          w)
swapped c payload w h = elim (Bool-cases c.handshake_confirmed) [
  | inl t ↦ rw t (record {
    paired = omega (arith, h.paired, ap one_if t);
    counted = h.counted;
    numbered = h.numbered;
    holds = kept w h.holds;
  })
  | inr f ↦ rw f (record {
    paired = omega (arith, h.paired, ap one_if f);
    counted = h.counted;
    numbered = h.numbered;
    holds = kept w h.holds;
  })
]
  where
    kept : (w : Watchdog) → StillHolds c w → StillHolds (record c { handshake_confirmed = true }) w
    kept clearing s = refl
    kept (stamping m) s = s
    kept (telling m) s = s
    kept sleeping s = tt
    kept (comparing l m) s = tt
    kept unbundling s = tt
    kept bumping s = tt
    kept checking s = tt
    kept resending s = tt
