-- ===== src/Tests/Registries.antt =====
-- The registry with one device that registers, and registers again.
use everything_imu.Prelude.{[], ◌∷◌, true, false, ◌≡◌, refl, All, arith}
use everything_imu.Core.Registry.{
  DeviceId, remove_stale, spawn, insert_device, has_task, idle, System, initial, begin, spawn_task,
  finish, Reach, here, later, new_registry,
}
use everything_imu.Core.Registry.Unique.{IsUnique, IsFound, Reach-IsUnique}
use everything_imu.Core.Registry.Races.{is_registered, reap_removes_newer}

abbrev phone : DeviceId
phone = record { mac = 9; serial = 1 ∷ [] }

abbrev one_phone : System
one_phone = record {
  registry =
      insert_device phone initial.registry.next_task
        (spawn phone (remove_stale phone initial.registry));
  phase = idle;
}

registers : Reach initial one_phone
unfolding initial remove_stale
registers =
    later (later (later here (begin phone refl)) (spawn_task phone refl))
      (finish phone initial.registry.next_task refl)

Reach-IsUnique_example :
    IsUnique one_phone.registry.devices
    × All (IsFound one_phone.registry.devices) one_phone.registry.devices
Reach-IsUnique_example = Reach-IsUnique registers

runs : has_task 0 phone (remove_stale phone one_phone.registry).tasks ≡ true
unfolding initial remove_stale spawn insert_device new_registry
runs = refl

reap_removes_newer_example :
    (t : System) × Reach one_phone t
    × (is_registered phone t.registry.devices ≡ false)
    × (has_task one_phone.registry.next_task phone t.registry.tasks ≡ true)
unfolding initial remove_stale spawn insert_device new_registry
reap_removes_newer_example = reap_removes_newer one_phone 0 phone refl runs (omega arith)
