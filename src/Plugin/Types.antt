-- ===== src/Plugin/Types.antt =====
-- The state that the driver's methods share, and the services that they call.
use dra_linux_networks.Prelude.{
  String, Bool, false, not, Option, none, some, List, [], ◌∷◌, Result, ◌==◌, ◌&&◌, ◌<>◌,
  if◌then◌else◌, is_empty, join, ◌++◌,
}
use dra_linux_networks.Prelude.Dict.{Dict}
use dra_linux_networks.Driver.{DeviceConfig, HostDeviceState, NamespacedName}
use dra_linux_networks.Host.Kernel.{HostError}
use dra_linux_networks.Store.{Store, Faults, StoreError, Outcome, set_device, set_net_ns}

-- A `corev1.Pod`, as far as it is read, and an `api.PodSandbox` of the runtime, whose namespaces
-- are pairs of a type and a path; `none` stands for a nil part.
pub record KubePod : Type 0 where
  pub namespace : String
  pub name : String
  pub uid : String
  pub readiness_gates : List String
  pub annotations : Dict String

pub record Sandbox : Type 0 where
  pub uid : String
  pub namespace : String
  pub name : String
  pub namespaces : Option (List (String × String))

-- What is sent to the API server and to the file system, each with its answer, in a state `W` that
-- also is the kernel's; `faults` tells how the store's next write goes.
pub record Services (W : Type 0) : Type 0 where
  pub faults : W → Faults × W
  pub get_pod : String → String → W → Result String KubePod × W
  pub set_device_status :
      DeviceConfig → Bool → String → String → String → W → Result String (Unit {0}) × W
  pub set_pod_status : KubePod → DeviceConfig → W → Result String (Unit {0}) × W
  pub set_pod_condition : KubePod → Bool → String → String → W → Result String (Unit {0}) × W
  pub emit_pod_event :
      KubePod
      → String
      → String
      → String
      → String
      → NamespacedName
      → W
      → Result String (Unit {0}) × W
  pub remove_device_status : NamespacedName → W → Result String (Unit {0}) × W
  pub remove_cdi_specs : String → W → Result String (Unit {0}) × W
  pub publish : W → W

pub record Node (W : Type 0) : Type 0 where
  pub store : Store
  pub env : W

pub data PluginError : Type 0 where
  from_kernel : HostError → PluginError
  stored : StoreError → PluginError
  service : String → PluginError
  restore_failed : String → PluginError → PluginError
  attach_failed : String → PluginError → PluginError
  status_failed pod_status_failed readiness_failed get_pod_failed : PluginError → PluginError
  no_namespace uid_changed : String → String → PluginError

unfoldable pub network_type : List (String × String) → String
network_type [] = ""
network_type ((type, path) ∷ rest) =
    let found = network_type rest in if type == "network" then path else found

unfoldable pub network_namespace : Sandbox → String
network_namespace pod = elim pod.namespaces [ none ↦ "" | some list ↦ network_type list ]

unfoldable pub original_admin_state : DeviceConfig → String
original_admin_state cfg = elim cfg.host_device [
  | none ↦ "down"
  | some host ↦ if host.original_admin_up then "up" else "down"
]

unfoldable pub network_restored_message : DeviceConfig → String
network_restored_message cfg =
    "host device restored as "
    <> (cfg.parent_name
        <> (", driver "
            <> (cfg.identity.kernel_driver
                <> (", PCI "
                    <> (cfg.identity.pci_address
                        <> (", admin state " <> original_admin_state cfg))))))

unfoldable pub network_prepared_message : DeviceConfig → String
network_prepared_message cfg =
    join
      (((cfg.network.type <> (" prepared for interface " <> cfg.network.interface_name)) ∷ [])
        ++ (if is_empty cfg.network.addresses
            then []
            else (("reserved address " <> join cfg.network.addresses ",") ∷ []))
        ++ (if cfg.network.ip_pool == "" then [] else (("IPPool " <> cfg.network.ip_pool) ∷ []))
        ++ ("waiting for Pod network attachment" ∷ []))
      ", "

-- What the two DPDK messages say of the device.
dpdk_details : DeviceConfig → String → String
dpdk_details cfg verb = elim cfg.dpdk [
  | none ↦ "DPDK device " <> verb
  | some dpdk ↦
      "DPDK device "
      <> (dpdk.pci_address
          <> (" "
              <> (verb
                  <> (" through CDI, driver "
                      <> (dpdk.current_driver
                          <> (", IOMMU mode "
                              <> (dpdk.iommu_mode <> (", group " <> dpdk.iommu_group))))))))
]

unfoldable pub dpdk_prepared_message : DeviceConfig → String
unfolding dpdk_details
dpdk_prepared_message cfg = dpdk_details cfg "prepared"

unfoldable pub dpdk_injected_message : DeviceConfig → String
unfolding dpdk_details
dpdk_injected_message cfg = dpdk_details cfg "injected"

-- A host device that is not with the host.
abbrev pub has_away : Option HostDeviceState → Bool
has_away none = false
has_away (some host) = not host.restored

abbrev pub is_away : DeviceConfig → Bool
is_away cfg = cfg.network.type == "host-device" && has_away cfg.host_device

module _ {W : Type 0} (V : Services W) where
  -- `d.store.SetDevice` and `d.store.SetNetNS`
  unfoldable pub keep_device : String → String → DeviceConfig → Node W → Outcome × Node W
  keep_device uid name cfg n =
      let (io, env) = V.faults n.env in
      let (r, store) = set_device io uid name cfg n.store in
      (r, record { store = store; env = env })

  unfoldable pub keep_net_ns : String → String → Node W → Outcome × Node W
  keep_net_ns uid path n =
      let (io, env) = V.faults n.env in
      let (r, store) = set_net_ns io uid path n.store in (r, record { store = store; env = env })

  -- A call whose error is dropped.
  unfoldable pub quietly : (W → Result String (Unit {0}) × W) → Node W → Node W
  quietly call n = record n { env = (call n.env).1 }
