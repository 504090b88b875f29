-- ===== src/Core/Registry/Races.antt =====
-- crates/core/src/app_state.rs: the end of an old pipeline against a new registration.
use everything_imu.Prelude.{
  ℕ, ◌<◌, List, [], ◌∷◌, Bool, true, false, not, ◌||◌, ◌≡◌, ◌≢◌, refl, Bool-cases, inl, inr, arith,
}
use everything_imu.Maps.{retain}
use everything_imu.Core.Registry.{
  DeviceId, same_id, DeviceHandle, remove_stale, spawn, insert_device, reap, ended, has_task, idle,
  System, begin, spawn_task, finish, disconnect, Reach, here, later,
}
use everything_imu.Core.Registry.Unique.{same_id_refl}

-- An entry under this identity.
abbrev pub is_registered : DeviceId → List (DeviceId × DeviceHandle) → Bool
is_registered id [] = false
is_registered id (e ∷ es) = same_id e.0 id || is_registered id es

not_registered :
    (id : DeviceId) (es : List (DeviceId × DeviceHandle))
    → is_registered id (retain (λ e. not (same_id e.0 id)) es) ≡ false
not_registered id [] = refl
not_registered id (e ∷ es) = elim (Bool-cases (same_id e.0 id)) [
  | inl t ↦ rw t (not_registered id es)
  | inr f ↦ rw f (rw f (not_registered id es))
]

still_running :
    (k n : ℕ) (id : DeviceId) (ts : List (ℕ × DeviceId))
    → k ≢ n
    → has_task n id (ended k ((n, id) ∷ ts)) ≡ true
still_running k n id ts ne = ground (arith, same_id_refl id)

or_true : (b c : Bool) → c ≡ true → (b || c) ≡ true
or_true true c h = refl
or_true false c h = h

-- Let a pipeline run that removes `id` when it is told of the disconnect, let it survive the
-- removal of stale entries, and let no registration be under way. A registration of the same
-- identity that is followed by the end of that old pipeline leads to a state where the registry has
-- no entry for the identity although the new pipeline, which has the next number, runs.
pub reap_removes_newer :
    (s : System) (k : ℕ) (id : DeviceId)
    → s.phase ≡ idle
    → has_task k id (remove_stale id s.registry).tasks ≡ true
    → k < s.registry.next_task
    → (t : System) × Reach s t
      × (is_registered id t.registry.devices ≡ false)
      × (has_task s.registry.next_task id t.registry.tasks ≡ true)
unfolding remove_stale spawn insert_device reap
reap_removes_newer s k id free running old = (
  _,
  later
      (later (later (later here (begin id free)) (spawn_task id refl))
        (finish id s.registry.next_task refl))
      (disconnect k id (or_true _ _ running)),
  not_registered id
      (insert_device id s.registry.next_task (spawn id (remove_stale id s.registry))).devices,
  still_running k s.registry.next_task id _ (λ e. absurd (omega (arith, e))),
)
