-- ===== src/Examples/Node.antt =====
-- The node's store, and the controller's counts.
use dra_linux_networks.Prelude.{
  ◌+◌, String, ◌≡◌, ◌≢◌, ◌⊎◌, inl, inr, refl, true, false, none, some, [], ◌∷◌, All, ok, err, ◌==◌,
  eq_iff, if◌then◌else◌, trim_space,
}
use dra_linux_networks.Prelude.Dict.{Dict, lookup, insert}
use dra_linux_networks.Prelude.Int.{pos}
use dra_linux_networks.Kube.{text, object, Fields, no_fields, field, ip_pools, ip_allocations}
use dra_linux_networks.Kube.Memory.{
  accessors, server, Cluster, name_of, find_named, remove_named, visible, find_claim,
}
use dra_linux_networks.Kube.Memory.Laws.{server-IsUndisturbed}
use dra_linux_networks.IpamApi.{
  Allocation, allocation_name, new_allocation_object, parse_allocation,
}
use dra_linux_networks.Driver.{DeviceConfig, PodConfig, IpAllocation}
use dra_linux_networks.Store.{
  Store, Faults, StoreError, persist_locked, set_device, delete_claim, reserve_ip,
  allocation_for_claim, migrate_device_keys, canonical_key, whole, device_store_key, get_pod,
}
use dra_linux_networks.Store.Reserve.{reserve_ip-ok, reserve_ip-keeps}
use dra_linux_networks.Store.Devices.{device_at, device_at-set_device}
use dra_linux_networks.Store.DeleteClaim.{IsClear, Has, delete_claim_clears, delete_claim_keeps}
use dra_linux_networks.Store.Persist.{persist_locked_atomic}
use dra_linux_networks.Controller.{
  PoolCounts, StatusTools, allocation_is_stale, delete_allocation, reconcile_items,
}
use dra_linux_networks.Controller.Counts.{
  AreSums, count_at, is_live, live_in, reconcile_items-counts,
}
use dra_linux_networks.Controller.Live.{IsKept, reconcile_items-IsKept}
use dra_linux_networks.Examples.{by_length, allocation_b, object_a, object_b}

abbrev some_device : DeviceConfig
some_device = record {
  claim = record { namespace = "apps"; name = "nic-a" };
  claim_uid = "u-a";
  driver_name = "linux-net.dra.infinitydon.com";
  pool_name = "node-1";
  device_name = "eth1";
  share_id = some "s1";
  parent_name = "eth1";
  allocation_policy = "shared";
  identity = record {
    kernel_driver = "";
    bus_type = "";
    pci_address = "";
    pcie_root = "";
    pci_vendor_id = "";
    pci_device_id = "";
  };
  host_device = none;
  dpdk = none;
  network = record {
    type = "macvlan";
    mode = "bridge";
    interface_name = "net1";
    mtu = pos 0;
    ip_pool = "";
    address = "";
    addresses = [];
    gateway = "";
    routes = [];
  };
  attached_if = "";
  hardware_address = "";
  lifecycle_state = "Prepared";
}

abbrev other_device : DeviceConfig
other_device = record some_device { claim_uid = "u-b"; device_name = "eth2" }

-- The first device stands under the key of an earlier version.
abbrev some_pod : PodConfig
some_pod = record {
  pod_uid = "p-a";
  net_ns = "/run/netns/a";
  devices = some (("eth1", some_device) ∷ ("u-b/eth2/s1", other_device) ∷ []);
}

abbrev some_store : Store
some_store = record {
  path = "/var/lib/state.json";
  state = record {
    pods = ("p-a", some_pod) ∷ [];
    ip_allocations =
        (
          "u-b",
          record { pool = "lan"; address = "10.1.0.16/24"; claim_uid = "u-b"; pod_uid = "p-a" },
        )
        ∷ [];
  };
  disk = record { file = none; tmp = none; held = [] };
}

abbrev no_faults : Faults
no_faults = record { mkdir = false; open_file = false; write = false; rename = false }

abbrev full_disk : Faults
full_disk = record { mkdir = false; open_file = false; write = true; rename = false }

reserve_run : (reserve_ip no_faults "lan" "10.1.0.5/24" "u-a" "p-a" some_store).0 ≡ ok tt
unfolding reserve_ip persist_locked lookup
reserve_run = refl

reserve_ip-ok_example :
    (a : IpAllocation) × (allocation_for_claim "u-a"
        (reserve_ip no_faults "lan" "10.1.0.5/24" "u-a" "p-a" some_store).1
      ≡ some a)
    × (a.pool ≡ "lan")
    × (a.address ≡ "10.1.0.5/24")
reserve_ip-ok_example =
    reserve_ip-ok no_faults "lan" "10.1.0.5/24" "u-a" "p-a" some_store reserve_run

abbrev b_allocation : IpAllocation
b_allocation = record { pool = "lan"; address = "10.1.0.16/24"; claim_uid = "u-b"; pod_uid = "p-a" }

b_has : allocation_for_claim "u-b" some_store ≡ some b_allocation
unfolding allocation_for_claim lookup
b_has = refl

-- Another address for the same claim, on a full disk.
reserve_ip-keeps_example :
    allocation_for_claim "u-b" (reserve_ip full_disk "lan" "10.1.0.99/24" "u-b" "p-a" some_store).1
    ≡ some b_allocation
reserve_ip-keeps_example =
    reserve_ip-keeps full_disk "lan" "10.1.0.99/24" "u-b" "p-a" some_store "u-b" b_allocation b_has

device_at-set_device_example :
    device_at "p-a" "k" (set_device full_disk "p-a" "k" other_device some_store).1 ≡ (
      if "p-a" == "p-a"
      then if "k" == "k" then some other_device else device_at "p-a" "k" some_store
      else device_at "p-a" "k" some_store)
device_at-set_device_example =
    device_at-set_device full_disk "p-a" some_store "k" other_device "p-a" "k"

delete_claim_clears_example :
    All (IsClear "u-a") (delete_claim no_faults "u-a" some_store).1.state.pods
    × (allocation_for_claim "u-a" (delete_claim no_faults "u-a" some_store).1 ≡ none)
delete_claim_clears_example = delete_claim_clears "u-a" no_faults some_store

foreign : other_device.claim_uid ≢ "u-a"
foreign e = let differ : false ≡ true = (eq_iff "u-b" "u-a").1 e in cc

b_device : Has "u-a" "p-a" ("u-b/eth2/s1", other_device) some_store.state.pods
b_device = (some_pod, inl refl, inr (inl refl))

delete_claim_keeps_example :
    Has "u-a" "p-a"
      ("u-b/eth2/s1", other_device)
      (delete_claim no_faults "u-a" some_store).1.state.pods
    × (allocation_for_claim "u-b" (delete_claim no_faults "u-a" some_store).1
        ≡ allocation_for_claim "u-b" some_store)
delete_claim_keeps_example =
    delete_claim_keeps "u-a" no_faults some_store "p-a" "u-b/eth2/s1" other_device "u-b" foreign
      foreign b_device

-- A device of an older version, under a key that is not its own.
abbrev old_store : Store
old_store = record some_store {
  state = record some_store.state {
    pods =
        (
          "p-a",
          record { pod_uid = "p-a"; net_ns = ""; devices = some (("eth2", other_device) ∷ []) },
        )
        ∷ [];
  };
}

migrated_run : device_at "p-a" "u-b/eth2/s1" (migrate_device_keys old_store).1 ≡ some other_device
unfolding migrate_device_keys canonical_key device_store_key lookup insert get_pod
migrated_run = refl

persist_locked_atomic_example :
    (((persist_locked full_disk some_store).0 ≡ ok tt)
      × (((some_store.path ≡ "") × ((persist_locked full_disk some_store).1.disk ≡ some_store.disk))
          ⊎ ((persist_locked full_disk some_store).1.disk ≡ record {
            file = some (whole some_store.state);
            tmp = none;
            held = some (whole some_store.state) ∷ some_store.disk.held;
          })))
    ⊎ ((e : StoreError) × ((persist_locked full_disk some_store).0 ≡ err e)
        × ((persist_locked full_disk some_store).1.disk.file ≡ some_store.disk.file)
        × ((persist_locked full_disk some_store).1.disk.held ≡ some_store.disk.held))
persist_locked_atomic_example = persist_locked_atomic full_disk some_store

-- The claim of the first allocation is gone, that of the second is there.
abbrev live_cluster : Cluster
live_cluster = record {
  pools = [];
  allocations = object_a ∷ object_b ∷ [];
  claims = record { namespace = "apps"; name = "nic-bb"; uid = "u-b" } ∷ [];
}

abbrev one_static : Dict PoolCounts
one_static = ("lan", record { total = 1; dynamic = 0; static = 1 }) ∷ []

reconcile_run :
    reconcile_items accessors server (object_a ∷ object_b ∷ []) [] live_cluster
    ≡ (ok one_static, record live_cluster { allocations = object_b ∷ [] })
unfolding reconcile_items allocation_is_stale delete_allocation lookup insert find_claim find_named
    remove_named name_of new_allocation_object allocation_name parse_allocation trim_space
reconcile_run = refl

no_counts : AreSums []
unfolding lookup
no_counts pool = refl

reconcile_items-counts_example :
    AreSums one_static
    × ((pool : String)
        → (count_at pool one_static).total
          ≡ live_in accessors server server-IsUndisturbed live_cluster pool
              (object_a ∷ object_b ∷ [])
            + (count_at pool []).total)
reconcile_items-counts_example =
    reconcile_items-counts accessors server server-IsUndisturbed (object_a ∷ object_b ∷ []) []
      one_static live_cluster (record live_cluster { allocations = object_b ∷ [] }) no_counts
      reconcile_run

abbrev b_record : Allocation
b_record = record allocation_b { name = allocation_name by_length "lan" "10.1.0.16/24" }

b_record_parses : parse_allocation accessors object_b ≡ ok b_record
unfolding name_of new_allocation_object allocation_name parse_allocation trim_space
b_record_parses = refl

live_listed :
    server.list ip_allocations live_cluster ≡ (ok (object_a ∷ object_b ∷ []), live_cluster)
unfolding visible name_of new_allocation_object allocation_name
live_listed = refl

b_stored :
    server.stored live_cluster ip_allocations (allocation_name by_length "lan" "10.1.0.16/24")
    ≡ some object_b
unfolding find_named name_of new_allocation_object allocation_name
b_stored = refl

b_live : is_live accessors server server-IsUndisturbed live_cluster b_record ≡ true
unfolding find_claim
b_live = refl

reconcile_items-IsKept_example :
    IsKept accessors server server-IsUndisturbed
      (allocation_name by_length "lan" "10.1.0.16/24")
      object_b
      b_record
      b_record_parses
      (record live_cluster { allocations = object_b ∷ [] })
reconcile_items-IsKept_example =
    reconcile_items-IsKept accessors server server-IsUndisturbed
      (allocation_name by_length "lan" "10.1.0.16/24") object_b b_record b_record_parses
      (object_a ∷ object_b ∷ []) [] live_cluster
      (record live_cluster { allocations = object_b ∷ [] }) (ok one_static) live_listed b_stored
      b_live reconcile_run

abbrev pool_object : Fields
pool_object = field "metadata" (object (field "name" (text "lan") no_fields)) no_fields

abbrev pool_cluster : Cluster
pool_cluster = record { pools = pool_object ∷ []; allocations = []; claims = [] }

abbrev equal_tools : StatusTools
equal_tools = record { deep_equal = λ current new. true; set_status = λ o s. some o }

pools_run : server.list ip_pools pool_cluster ≡ (ok (pool_object ∷ []), pool_cluster)
unfolding visible name_of
pools_run = refl
