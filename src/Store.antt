-- ===== src/Store.antt =====
-- internal/driver/store.go: the node's record of pods, devices and addresses, which a restart
-- reads back. A method takes the store and what the file system answers, and gives its error and
-- the store that it leaves; the mutex makes each method one step.
pub mod Reserve
pub mod Devices
pub mod DeleteClaim
pub mod Migrate
pub mod Persist
use dra_linux_networks.Prelude.{
  String, ◌<>◌, Bool, true, false, not, ◌&&◌, ◌||◌, Option, none, some, List, [], ◌∷◌, Result, ok,
  err, ◌==◌, if◌then◌else◌, is_empty,
}
use dra_linux_networks.Prelude.Dict.{Dict, lookup, insert, remove}
use dra_linux_networks.Driver.{DeviceConfig, PodConfig, IpAllocation}

pub record State : Type 0 where
  pub pods : Dict PodConfig
  pub ip_allocations : Dict IpAllocation

-- What a file holds: the JSON text of a whole state, or a text that was not written to its end.
pub data Content : Type 0 where
  whole : State → Content
  torn : Content

-- The state file and its temporary copy, and everything that the state file has held, the newest
-- first: this is what a reader may find after a crash.
pub record Disk : Type 0 where
  pub file : Option Content
  pub tmp : Option Content
  pub held : List (Option Content)

-- `s.path` and `s.path + ".tmp"`.
pub data FileName : Type 0 where
  state_path tmp_path : FileName

pub record Store : Type 0 where
  pub path : String
  pub state : State
  pub disk : Disk

-- What fails of the steps of `persistLocked`: a write at the opening of the file, or halfway.
pub record Faults : Type 0 where
  pub mkdir : Bool
  pub open_file : Bool
  pub write : Bool
  pub rename : Bool

pub data StoreError : Type 0 where
  mkdir_failed write_failed rename_failed different_allocation : StoreError

-- A method's error, nil or not.
abbrev pub Outcome : Type 0
Outcome = Result StoreError (Unit {0})

unfoldable pub put_file : FileName → Option Content → Disk → Disk
put_file state_path content disk = record disk { file = content; held = content ∷ disk.held }
put_file tmp_path content disk = record disk { tmp = content }

-- `os.WriteFile`, which empties the file before it writes it: between the two the file is torn.
unfoldable pub write_file : Faults → FileName → State → Disk → Outcome × Disk
unfolding put_file
write_file io name state disk =
    if io.open_file
    then (err write_failed, disk)
    else let opened = put_file name (some torn) disk in
      if io.write
      then (err write_failed, opened)
      else (ok tt, put_file name (some (whole state)) opened)

-- `os.Rename(tmp, s.path)`, which replaces the state file in one step.
unfoldable pub rename_file : Faults → Disk → Outcome × Disk
unfolding put_file
rename_file io disk =
    if io.rename
    then (err rename_failed, disk)
    else (ok tt, put_file tmp_path none (put_file state_path disk.tmp disk))

abbrev with_disk : Store → Outcome × Disk → Outcome × Store
with_disk s (outcome, disk) = (outcome, record s { disk = disk })

after_write : Faults → Outcome × Disk → Outcome × Disk
unfolding rename_file
after_write io (ok u, disk) = rename_file io disk
after_write io (err e, disk) = (err e, disk)

unfoldable pub persist_locked : Faults → Store → Outcome × Store
unfolding after_write write_file
persist_locked io s =
    if s.path == ""
    then (ok tt, s)
    else if io.mkdir
    then (err mkdir_failed, s)
    else with_disk s (after_write io (write_file io tmp_path s.state s.disk))

unfoldable pub device_store_key : String → String → Option String → String
device_store_key claim_uid device_name none = claim_uid <> ("/" <> device_name)
device_store_key claim_uid device_name (some share) =
    let key = claim_uid <> ("/" <> device_name) in
    if share == "" then key else key <> ("/" <> share)

-- `pod := s.Pods[podUID]`, the zero value if it is missing.
abbrev pub zero_pod : PodConfig
zero_pod = record { pod_uid = ""; net_ns = ""; devices = none }

abbrev pub pod_or_zero : Option PodConfig → PodConfig
pod_or_zero none = zero_pod
pod_or_zero (some pod) = pod

abbrev with_pods : Dict PodConfig → Store → Store
with_pods pods s = record s { state = record s.state { pods = pods } }

abbrev with_allocations : Dict IpAllocation → Store → Store
with_allocations m s = record s { state = record s.state { ip_allocations = m } }

-- The pod with the device in its map, which is made if it is nil.
put_device : String → String → DeviceConfig → PodConfig → Option (Dict DeviceConfig) → PodConfig
put_device pod_uid device_name cfg pod none = record pod {
  pod_uid = pod_uid;
  devices = some (insert device_name cfg []);
}
put_device pod_uid device_name cfg pod (some devices) = record pod {
  devices = some (insert device_name cfg devices);
}

unfoldable pub set_device : Faults → String → String → DeviceConfig → Store → Outcome × Store
unfolding put_device
set_device io pod_uid device_name cfg s =
    let pod = pod_or_zero (lookup pod_uid s.state.pods) in
    let pod' = put_device pod_uid device_name cfg pod pod.devices in
    persist_locked io (with_pods (insert pod_uid pod' s.state.pods) s)

unfoldable pub set_net_ns : Faults → String → String → Store → Outcome × Store
set_net_ns io pod_uid netns s =
    let pod = pod_or_zero (lookup pod_uid s.state.pods) in
    let pod' = record pod { pod_uid = pod_uid; net_ns = netns } in
    persist_locked io (with_pods (insert pod_uid pod' s.state.pods) s)

unfoldable pub get_pod : String → Store → Option PodConfig
get_pod pod_uid s = lookup pod_uid s.state.pods

unfoldable pub delete_pod : Faults → String → Store → Outcome × Store
delete_pod io pod_uid s = persist_locked io (with_pods (remove pod_uid s.state.pods) s)

-- The inner loop of `DeleteClaim`.
drop_devices : String → Dict DeviceConfig → Dict DeviceConfig
drop_devices claim_uid [] = []
drop_devices claim_uid ((name, cfg) ∷ devices) =
    let rest = drop_devices claim_uid devices in
    if cfg.claim_uid == claim_uid then rest else (name, cfg) ∷ rest

abbrev pub devices_of : PodConfig → Dict DeviceConfig
devices_of pod = elim pod.devices [ none ↦ [] | some devices ↦ devices ]

-- The outer loop: a pod with no device left is deleted.
drop_pods : String → Dict PodConfig → Dict PodConfig
unfolding drop_devices
drop_pods claim_uid [] = []
drop_pods claim_uid ((uid, pod) ∷ pods) =
    let rest = drop_pods claim_uid pods in
    let left = drop_devices claim_uid (devices_of pod) in
    if is_empty left then rest else (uid, record pod { devices = some left }) ∷ rest

unfoldable pub delete_claim : Faults → String → Store → Outcome × Store
unfolding drop_pods
delete_claim io claim_uid s = persist_locked io (record s {
  state = record {
    pods = drop_pods claim_uid s.state.pods;
    ip_allocations = remove claim_uid s.state.ip_allocations;
  };
})

-- `ReserveIP`, by what the claim has.
unfoldable reserve_over : Faults → IpAllocation → Option IpAllocation → Store → Outcome × Store
reserve_over io entry (some current) s =
    if current.pool == entry.pool && current.address == entry.address
    then (ok tt, s)
    else (err different_allocation, s)
reserve_over io entry none s =
    persist_locked io (with_allocations (insert entry.claim_uid entry s.state.ip_allocations) s)

unfoldable pub reserve_ip : Faults → String → String → String → String → Store → Outcome × Store
unfolding reserve_over
reserve_ip io pool address claim_uid pod_uid s =
    let entry : IpAllocation = record {
      pool = pool;
      address = address;
      claim_uid = claim_uid;
      pod_uid = pod_uid;
    } in
    reserve_over io entry (lookup claim_uid s.state.ip_allocations) s

unfoldable pub allocation_for_claim : String → Store → Option IpAllocation
allocation_for_claim claim_uid s = lookup claim_uid s.state.ip_allocations

-- The key under which a device belongs.
unfoldable pub canonical_key : String → DeviceConfig → String
canonical_key old_key cfg =
    if not (cfg.claim_uid == "") && not (cfg.device_name == "")
    then device_store_key cfg.claim_uid cfg.device_name cfg.share_id
    else old_key

-- The inner loop of `migrateDeviceKeys`: the new map, and whether a key has changed.
migrate_devices : Dict DeviceConfig → Dict DeviceConfig → Bool → Dict DeviceConfig × Bool
unfolding canonical_key
migrate_devices [] devices changed = (devices, changed)
migrate_devices ((old_key, cfg) ∷ rest) devices changed =
    let key = canonical_key old_key cfg in
    migrate_devices rest (insert key cfg devices) (changed || not (key == old_key))

migrate_pods : Dict PodConfig → Bool → Dict PodConfig × Bool
unfolding migrate_devices
migrate_pods [] changed = ([], changed)
migrate_pods ((uid, pod) ∷ pods) changed =
    let (devices, changed') = migrate_devices (devices_of pod) [] changed in
    let (rest, changed'') = migrate_pods pods changed' in
    ((uid, record pod { devices = some devices }) ∷ rest, changed'')

unfoldable pub migrate_device_keys : Store → Bool × Store
unfolding migrate_pods
migrate_device_keys s =
    let (pods, changed) = migrate_pods s.state.pods false in (changed, with_pods pods s)
