-- ===== src/Driver/Status.antt =====
-- internal/driver/status.go: the conditions of a pod, the keys of device statuses, and what is
-- reported of a device.
pub mod Conditions
use dra_linux_networks.Prelude.{
  String, ◌<>◌, Bool, true, false, not, ◌&&◌, ◌||◌, Option, none, some, List, [], ◌∷◌, ◌++◌, ◌==◌,
  if◌then◌else◌, is_empty, join, eqb, length, Result, ok, err,
}
use dra_linux_networks.Driver.{NamespacedName, HostDeviceState, NetworkConfig, DeviceConfig}

-- `corev1.PodCondition`, with the fields that the program writes.
pub record PodCondition : Type 0 where
  pub type : String
  pub status : String
  pub last_probe_time : String
  pub last_transition_time : String
  pub reason : String
  pub message : String

-- The condition that is stored in the place of an old one of its type.
unfoldable pub renewed : PodCondition → PodCondition → PodCondition
renewed old condition =
    if old.status == condition.status
    then record condition { last_transition_time = old.last_transition_time }
    else condition

unfoldable pub set_pod_condition : List PodCondition → PodCondition → List PodCondition
unfolding renewed
set_pod_condition [] condition = condition ∷ []
set_pod_condition (old ∷ conditions) condition = elim (old.type == condition.type) [
  | false ↦ old ∷ set_pod_condition conditions condition
  | true ↦ renewed old condition ∷ conditions
]

abbrev pub network_ready : String
network_ready = "linux-net.dra.infinitydon.com/NetworkReady"

-- `podUsesNetworkReadinessGate`, of the condition types of the gates.
unfoldable pub pod_uses_network_readiness_gate : List String → Bool
pod_uses_network_readiness_gate [] = false
pod_uses_network_readiness_gate (gate ∷ gates) =
    if gate == network_ready then true else pod_uses_network_readiness_gate gates

unfoldable pub share_ids_equal : Option String → Option String → Bool
share_ids_equal none none = true
share_ids_equal none (some r) = false
share_ids_equal (some l) none = false
share_ids_equal (some l) (some r) = l == r

-- What identifies a device of a claim's status.
pub record StatusKey : Type 0 where
  pub driver : String
  pub pool : String
  pub device : String
  pub share_id : Option String

unfoldable pub same_device_status_key : StatusKey → StatusKey → Bool
unfolding share_ids_equal
same_device_status_key left right =
    left.driver == right.driver
    && left.pool == right.pool
    && left.device == right.device
    && share_ids_equal left.share_id right.share_id

-- The loop of `removeResourceClaimDeviceStatus`, which keeps the statuses of other drivers.
unfoldable pub other_statuses : String → List StatusKey → List StatusKey
other_statuses driver_name [] = []
other_statuses driver_name (s ∷ statuses) =
    let rest = other_statuses driver_name statuses in
    if s.driver == driver_name then rest else s ∷ rest

unfoldable pub reported_addresses : DeviceConfig → List String
reported_addresses cfg =
    if is_empty cfg.network.addresses
    then (elim cfg.host_device [ none ↦ [] | some host ↦ host.original_addresses ])
    else cfg.network.addresses

unfoldable pub network_lifecycle_state : DeviceConfig → String
network_lifecycle_state cfg = if cfg.lifecycle_state == "" then "Attached" else cfg.lifecycle_state

unfoldable pub network_status_message : DeviceConfig → String
unfolding reported_addresses
network_status_message cfg =
    let attached = cfg.network.type <> (" attached as " <> cfg.network.interface_name) in
    let addresses = reported_addresses cfg in
    let parts =
      (attached ∷ [])
      ++ (if is_empty addresses then [] else (("address " <> join addresses ",") ∷ []))
      ++ (if cfg.network.ip_pool == "" then [] else (("IPPool " <> cfg.network.ip_pool) ∷ []))
      ++ (("parent " <> cfg.parent_name) ∷ []) in
    join parts ", "
