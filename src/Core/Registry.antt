-- ===== src/Core/Registry.antt =====
-- The device registry of crates/core/src/app_state.rs. A MAC address is the number of its bytes and
-- a serial the list of its bytes. A pipeline's task is known by a number; what a pipeline does until
-- it ends is left open. Only the calls of `register_device` by the one loop of supervisor.rs
-- register devices, so that two of them never overlap; the tasks run beside them.
pub mod Unique
pub mod Races
use everything_imu.Prelude.{
  ℕ, suc, ◌+◌, max, min, ◌^◌, ◌-◌, List, [], ◌∷◌, ◌++◌, Option, none, some, Bool, true, false, not,
  ◌&&◌, ◌||◌, ◌==◌, ◌≡◌, if◌then◌else◌,
}
use everything_imu.Slices.{same}
use everything_imu.Maps.{retain}

pub record DeviceId : Type 0 where
  pub mac : ℕ
  pub serial : List ℕ

-- `==` on two identities.
abbrev pub same_id : DeviceId → DeviceId → Bool
same_id a b = a.mac == b.mac && same a.serial b.serial

-- What an entry keeps: the identity in its metadata and the task of its pipeline, which has the
-- other ends of its channels.
pub record DeviceHandle : Type 0 where
  pub metadata_id : DeviceId
  pub task : ℕ

pub record Registry : Type 0 where
  pub devices : List (DeviceId × DeviceHandle)
  pub tasks : List (ℕ × DeviceId)  -- the running pipelines, with the identity that each removes
  pub next_task : ℕ
  pub device_events : List DeviceId  -- what was broadcast

unfoldable pub new_registry : Registry
new_registry = record { devices = []; tasks = []; next_task = 0; device_events = [] }

-- An entry of the same MAC address under another identity.
abbrev pub is_stale : DeviceId → DeviceId × DeviceHandle → Bool
is_stale id (did, h) = not (same_id did id) && h.metadata_id.mac == id.mac

abbrev pub has_stale_task : DeviceId → List (DeviceId × DeviceHandle) → ℕ → Bool
has_stale_task id [] k = false
has_stale_task id (e ∷ es) k = (is_stale id e && e.1.task == k) || has_stale_task id es k

-- The first block of `register_device`, under the lock: the stale entries go, and their tasks are
-- aborted.
unfoldable pub remove_stale : DeviceId → Registry → Registry
remove_stale id r = record r {
  devices = retain (λ e. not (is_stale id e)) r.devices;
  tasks = retain (λ t. not (has_stale_task id r.devices t.0)) r.tasks;
}

-- `tokio::spawn` of the pipeline.
unfoldable pub spawn : DeviceId → Registry → Registry
spawn id r = record r { tasks = (r.next_task, id) ∷ r.tasks; next_task = r.next_task + 1 }

-- The `insert` of `register_device`, which replaces an entry of the same identity, and the broadcast.
unfoldable pub insert_device : DeviceId → ℕ → Registry → Registry
insert_device id k r = record r {
  devices =
      (id, record { metadata_id = id; task = k }) ∷ retain (λ e. not (same_id e.0 id)) r.devices;
  device_events = r.device_events ++ id ∷ [];
}

abbrev pub ended : ℕ → List (ℕ × DeviceId) → List (ℕ × DeviceId)
ended k tasks = retain (λ t. not (t.0 == k)) tasks

-- The end of a task whose pipeline returned `DeviceDisconnected`: it removes its identity.
unfoldable pub reap : ℕ → DeviceId → Registry → Registry
reap k id r = record r {
  devices = retain (λ e. not (same_id e.0 id)) r.devices;
  tasks = ended k r.tasks;
}

-- The end of a task whose pipeline returned anything else.
unfoldable pub leave : ℕ → Registry → Registry
leave k r = record r { tasks = ended k r.tasks }

-- The drain of `shutdown`.
unfoldable pub drain_devices : Registry → Registry
drain_devices r = record r { devices = [] }

-- `devices.values().find(|h| h.metadata.id.mac == mac)`.
abbrev pub find_mac : ℕ → List (DeviceId × DeviceHandle) → Option DeviceHandle
find_mac mac [] = none
find_mac mac ((did, h) ∷ es) =
    let rest = find_mac mac es in if h.metadata_id.mac == mac then some h else rest

pub data DeviceControl : Type 0 where
  set_led_mask_to : ℕ → DeviceControl
  set_rumble_to : ℕ → DeviceControl

-- The task to which a command goes, with the command; an intensity is its bit pattern.
abbrev sent_to : DeviceControl → Option DeviceHandle → Option (ℕ × DeviceControl)
sent_to c none = none
sent_to c (some h) = some (h.task, c)

unfoldable pub set_led_mask : Registry → ℕ → ℕ → Option (ℕ × DeviceControl)
set_led_mask r mac mask = sent_to (set_led_mask_to mask) (find_mac mac r.devices)

unfoldable pub set_rumble : Registry → ℕ → ℕ → Option (ℕ × DeviceControl)
set_rumble r mac intensity = sent_to (set_rumble_to intensity) (find_mac mac r.devices)

-- Where the supervisor's call of `register_device` stands.
pub data Phase : Type 0 where
  idle : Phase
  cleared : DeviceId → Phase
  spawned : DeviceId → ℕ → Phase

pub record System : Type 0 where
  pub registry : Registry
  pub phase : Phase

unfoldable pub initial : System
unfolding new_registry
initial = record { registry = new_registry; phase = idle }

abbrev pub has_task : ℕ → DeviceId → List (ℕ × DeviceId) → Bool
has_task k id [] = false
has_task k id (t ∷ ts) = (t.0 == k && same_id t.1 id) || has_task k id ts

-- The steps between which the lock on the registry is free.
pub data Step (s : System) : System → Type 0 where
  begin :
      (id : DeviceId)
      → s.phase ≡ idle
      → Step s (record { registry = remove_stale id s.registry; phase = cleared id })
  spawn_task :
      (id : DeviceId)
      → s.phase ≡ cleared id
      → Step s (record { registry = spawn id s.registry; phase = spawned id s.registry.next_task })
  finish :
      (id : DeviceId) (k : ℕ)
      → s.phase ≡ spawned id k
      → Step s (record { registry = insert_device id k s.registry; phase = idle })
  disconnect :
      (k : ℕ) (id : DeviceId)
      → has_task k id s.registry.tasks ≡ true
      → Step s (record s { registry = reap k id s.registry })
  exit : (k : ℕ) → Step s (record s { registry = leave k s.registry })
  shutdown : Step s (record s { registry = drain_devices s.registry })

pub data Reach (s : System) : System → Type 0 where
  here : Reach s s
  later : {t u : System} → Reach s t → Step t u → Reach s u
