-- ===== src/Core/Registry/Unique.antt =====
-- crates/core/src/app_state.rs: one entry for each MAC address, whatever the tasks do meanwhile.
use everything_imu.Prelude.{
  ℕ, List, [], ◌∷◌, some, Bool, true, false, not, ◌==◌, ==_iff, ◌≡◌, ◌≢◌, ◌⊎◌, inl, inr, refl, sym,
  ap, ◌∙◌, All, Bool-cases, arith, if_true, if_false,
}
use mathlib.Core.Path.{subst}
use everything_imu.Slices.{same}
use everything_imu.Maps.{retain, All-retain, All-map, All-select}
use everything_imu.Core.Registry.{
  DeviceId, same_id, DeviceHandle, Registry, is_stale, remove_stale, spawn, insert_device, reap,
  leave, drain_devices, find_mac, Phase, idle, cleared, spawned, System, initial, Step, begin,
  spawn_task, finish, disconnect, exit, shutdown, Reach, here, later,
}

abbrev Entry : Type 0
Entry = DeviceId × DeviceHandle

same→eq : (xs ys : List ℕ) → same xs ys ≡ true → xs ≡ ys
same→eq [] [] h = refl
same→eq [] (y ∷ ys) h = absurd (ground (arith, h))
same→eq (x ∷ xs) [] h = absurd (ground (arith, h))
same→eq (x ∷ xs) (y ∷ ys) h = ground (arith, ==_iff x y, same→eq xs ys)

pub same_id→eq : (a b : DeviceId) → same_id a b ≡ true → a ≡ b
same_id→eq a b h = ground (arith, ==_iff a.mac b.mac, same→eq a.serial b.serial)

-- Each entry is under the identity of its own metadata.
abbrev IsKeyed : Entry → Type 0
IsKeyed e = e.1.metadata_id ≡ e.0

abbrev Apart : Entry → Entry → Type 0
Apart e f = f.0.mac ≢ e.0.mac

-- No two entries have one MAC address.
abbrev pub IsUnique : List (DeviceId × DeviceHandle) → Type 0
IsUnique [] = Unit {0}
IsUnique (e ∷ es) = All (λ f. f.0.mac ≢ e.0.mac) es × IsUnique es

retain-IsUnique : (p : Entry → Bool) (es : List Entry) → IsUnique es → IsUnique (retain p es)
retain-IsUnique p [] u = tt
retain-IsUnique p (e ∷ es) u = elim (Bool-cases (p e)) [
  | inl t ↦
      rw (if_true (p e) (e ∷ retain p es) (retain p es) t)
        (All-retain (Apart e) p es u.0, retain-IsUnique p es u.1)
  | inr f ↦ rw (if_false (p e) (e ∷ retain p es) (retain p es) f) (retain-IsUnique p es u.1)
]

-- An entry of the MAC address that is being registered is under the identity itself.
abbrev Agrees : DeviceId → Entry → Type 0
Agrees id e = (e.0.mac ≢ id.mac) ⊎ (e.0 ≡ id)

abbrev IsReady : Phase → List Entry → Type 0
IsReady idle es = Unit {0}
IsReady (cleared id) es = All (Agrees id) es
IsReady (spawned id k) es = All (Agrees id) es

record IsConsistent (s : System) : Type 0 where
  keyed : All IsKeyed s.registry.devices
  unique : IsUnique s.registry.devices
  ready : IsReady s.phase s.registry.devices

not_stale-Agrees :
    (id : DeviceId) (e : Entry) → IsKeyed e → not (is_stale id e) ≡ true → Agrees id e
not_stale-Agrees id (did, h) k e = elim (Bool-cases (same_id did id)) [
  | inl t ↦ inr (same_id→eq did id t)
  | inr f ↦ inl (λ m. absurd (ground (arith, f, e, m, ap (λ (d : DeviceId). d.mac) k)))
]

pub same_id_refl : (a : DeviceId) → same_id a a ≡ true
same_id_refl a = ground (arith, same_refl a.serial)
  where
    same_refl : (xs : List ℕ) → same xs xs ≡ true
    same_refl [] = refl
    same_refl (x ∷ xs) = ground (arith, same_refl xs)

other-Apart :
    (id : DeviceId) (e : Entry) → Agrees id e → not (same_id e.0 id) ≡ true → e.0.mac ≢ id.mac
other-Apart id e (inl ne) h = ne
other-Apart id e (inr eq) h =
    absurd (ground (arith, h, sym (ap (λ d. same_id d id) eq), same_id_refl id))

retain-IsReady :
    (p : Entry → Bool) (phase : Phase) (es : List Entry)
    → IsReady phase es
    → IsReady phase (retain p es)
retain-IsReady p idle es h = tt
retain-IsReady p (cleared id) es h = All-retain (Agrees id) p es h
retain-IsReady p (spawned id k) es h = All-retain (Agrees id) p es h

-- Removing entries keeps the invariant in the same phase.
retained :
    (p : Entry → Bool) (s : System) (r : Registry)
    → r.devices ≡ retain p s.registry.devices
    → IsConsistent s
    → IsConsistent (record s { registry = r })
retained p s r e c = record {
  keyed = rw e (All-retain IsKeyed p s.registry.devices c.keyed);
  unique = rw e (retain-IsUnique p s.registry.devices c.unique);
  ready = rw e (retain-IsReady p s.phase s.registry.devices c.ready);
}

Step-IsConsistent : {s t : System} → Step s t → IsConsistent s → IsConsistent t
unfolding remove_stale spawn insert_device reap leave drain_devices
Step-IsConsistent {s} (begin id e) c = record {
  keyed = All-retain IsKeyed (λ e. not (is_stale id e)) s.registry.devices c.keyed;
  unique = retain-IsUnique (λ e. not (is_stale id e)) s.registry.devices c.unique;
  ready =
      All-select (Agrees id) (λ e. not (is_stale id e)) s.registry.devices
        (All-map s.registry.devices (not_stale-Agrees id) c.keyed);
}
Step-IsConsistent {s} (spawn_task id e) c = record {
  keyed = c.keyed;
  unique = c.unique;
  ready = subst (λ p. IsReady p s.registry.devices) e c.ready;
}
Step-IsConsistent {s} (finish id k e) c =
    let agrees : All (Agrees id) s.registry.devices =
      subst (λ p. IsReady p s.registry.devices) e c.ready in
    record {
      keyed = (refl, All-retain IsKeyed (λ e. not (same_id e.0 id)) s.registry.devices c.keyed);
      unique = (
        All-select (λ f. f.0.mac ≢ id.mac) (λ e. not (same_id e.0 id)) s.registry.devices
            (All-map s.registry.devices (other-Apart id) agrees),
        retain-IsUnique (λ e. not (same_id e.0 id)) s.registry.devices c.unique,
      );
      ready = tt;
    }
Step-IsConsistent {s} (disconnect k id e) c =
    retained (λ e. not (same_id e.0 id)) s (reap k id s.registry) refl c
Step-IsConsistent {s} (exit k) c = record { keyed = c.keyed; unique = c.unique; ready = c.ready }
Step-IsConsistent {s} shutdown c = record { keyed = tt; unique = tt; ready = no_entries s.phase }
  where
    no_entries : (p : Phase) → IsReady p []
    no_entries idle = tt
    no_entries (cleared id) = tt
    no_entries (spawned id k) = tt

Reach-IsConsistent : {s t : System} → IsConsistent s → Reach s t → IsConsistent t
Reach-IsConsistent c here = c
Reach-IsConsistent c (later r st) = Step-IsConsistent st (Reach-IsConsistent c r)

initial-IsConsistent : IsConsistent initial
unfolding initial
initial-IsConsistent = record { keyed = tt; unique = tt; ready = tt }

-- The search for the MAC address of the entry gives its handle.
abbrev pub IsFound : List (DeviceId × DeviceHandle) → DeviceId × DeviceHandle → Type 0
IsFound es e = find_mac e.0.mac es ≡ some e.1

eq_false : (a b : ℕ) → a ≢ b → (a == b) ≡ false
eq_false a b h = ground arith

find_other :
    (e : Entry) (es : List Entry) (mac : ℕ)
    → IsKeyed e
    → mac ≢ e.0.mac
    → find_mac mac (e ∷ es) ≡ find_mac mac es
find_other (did, h) es mac k ne =
    if_false (h.metadata_id.mac == mac) (some h) (find_mac mac es)
      (eq_false h.metadata_id.mac mac (λ q. ne (sym q ∙ ap (λ (d : DeviceId). d.mac) k)))

find_self : (e : Entry) (es : List Entry) → IsKeyed e → IsFound (e ∷ es) e
find_self (did, h) es k =
    if_true (h.metadata_id.mac == did.mac) (some h) (find_mac did.mac es)
      ((==_iff h.metadata_id.mac did.mac).1 (ap (λ (d : DeviceId). d.mac) k))

find_behind :
    (e : Entry) (es fs : List Entry)
    → IsKeyed e
    → All (Apart e) fs
    → All (IsFound es) fs
    → All (IsFound (e ∷ es)) fs
find_behind e es [] k a f = tt
find_behind e es (g ∷ gs) k a f =
    (find_other e es g.0.mac k a.0 ∙ f.0, find_behind e es gs k a.1 f.1)

All-IsFound : (es : List Entry) → All IsKeyed es → IsUnique es → All (IsFound es) es
All-IsFound [] k u = tt
All-IsFound (e ∷ es) k u =
    (find_self e es k.0, find_behind e es es k.0 u.0 (All-IsFound es k.1 u.1))

-- In every state that the registry can reach from the empty one, by the calls of `register_device`
-- one after the other and by the ends of the pipelines' tasks between their critical sections, no
-- two entries have one MAC address, and the search by the MAC address of an entry gives that entry.
pub Reach-IsUnique :
    {s : System}
    → Reach initial s
    → IsUnique s.registry.devices × All (IsFound s.registry.devices) s.registry.devices
Reach-IsUnique {s} r =
    let c = Reach-IsConsistent initial-IsConsistent r in
    (c.unique, All-IsFound s.registry.devices c.keyed c.unique)
