-- ===== src/Plugin/Desk.antt =====
-- internal/driver/driver.go and dpdk.go: the state and the set-up that `prepareClaim` reads, and the
-- configurations of the devices that it records.
use dra_linux_networks.Prelude.{String, none, some, List, Result}
use dra_linux_networks.Prelude.Dict.{Dict}
use dra_linux_networks.Kube.{Server}
use dra_linux_networks.IpamApi.{ObjectReference}
use dra_linux_networks.Config.{InterfaceConfig, IpPool}
use dra_linux_networks.Driver.{InterfaceIdentity, DpdkDeviceState, NetworkConfig, DeviceConfig}
use dra_linux_networks.Store.{device_store_key}
use dra_linux_networks.Ipam.Claim.{IpamState}
use dra_linux_networks.Plugin.Types.{KubePod}
use dra_linux_networks.Plugin.Prepare.{Allocated, ClaimObject, PrepareError, config_or_zero}

-- The cluster, the node's store and pools, and the rest of the world.
pub record Desk (S : Server) (W : Type 0) : Type 0 where
  pub ipam : IpamState S
  pub env : W

-- What the driver was started with.
pub record Setup : Type 0 where
  pub driver_name : String
  pub node_name : String
  pub interfaces : Dict InterfaceConfig
  pub pools : List IpPool
  pub dpdk_devices : Dict DpdkDeviceState
  pub decode : String → Result String NetworkConfig

abbrev pub claim_reference_of : ClaimObject → ObjectReference
claim_reference_of claim = record {
  namespace = claim.namespace;
  name = claim.name;
  uid = claim.uid;
}

abbrev pub pod_reference_of : KubePod → ObjectReference
pod_reference_of pod = record { namespace = pod.namespace; name = pod.name; uid = pod.uid }

abbrev pub key_of : ClaimObject → Allocated → String
key_of claim a = device_store_key claim.uid a.device a.share_id

abbrev pub prepared_config : DeviceConfig → DeviceConfig
prepared_config cfg = record cfg { lifecycle_state = "Prepared" }

abbrev pub fresh_config :
    ClaimObject → Allocated → InterfaceConfig → InterfaceIdentity → NetworkConfig → DeviceConfig
fresh_config claim a ifc identity net = record {
  claim = record { namespace = claim.namespace; name = claim.name };
  claim_uid = claim.uid;
  driver_name = a.driver;
  pool_name = a.pool;
  device_name = a.device;
  share_id = a.share_id;
  parent_name = ifc.name;
  allocation_policy = ifc.allocation_policy;
  identity = identity;
  host_device = none;
  dpdk = none;
  network = net;
  attached_if = "";
  hardware_address = "";
  lifecycle_state = "";
}

abbrev pub dpdk_config : ClaimObject → Allocated → DpdkDeviceState → DeviceConfig
dpdk_config claim a state = record {
  claim = record { namespace = claim.namespace; name = claim.name };
  claim_uid = claim.uid;
  driver_name = a.driver;
  pool_name = a.pool;
  device_name = a.device;
  share_id = none;
  parent_name = state.pci_address;
  allocation_policy = "exclusive";
  identity = record {
    kernel_driver = state.current_driver;
    bus_type = "pci";
    pci_address = state.pci_address;
    pcie_root = state.pcie_root;
    pci_vendor_id = state.vendor_id;
    pci_device_id = state.device_id;
  };
  host_device = none;
  dpdk = some state;
  network = record (config_or_zero none) { type = "dpdk" };
  attached_if = "";
  hardware_address = "";
  lifecycle_state = "Prepared";
}

-- A step: an error or a value, and the desk.
abbrev pub Step : Server → Type 0 → Type 0 → Type 0
Step S W A = Result PrepareError A × Desk S W
