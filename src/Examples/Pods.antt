-- ===== src/Examples/Pods.antt =====
-- A claim's network, a pod's interface names, and the configuration.
use dra_linux_networks.Prelude.{
  ◌≡◌, ◌≢◌, ◌↔◌, ◌⊎◌, refl, true, false, Option, none, some, [], ◌∷◌, All, ok, trim_space,
  trim_prefix, has_prefix, contains_any,
}
use dra_linux_networks.Prelude.Decimal.{itoa, parse_digits}
use dra_linux_networks.Prelude.Dict.{lookup}
use dra_linux_networks.Prelude.Int.{pos}
use dra_linux_networks.Config.{IpPool, InterfaceConfig, PciSelector, DpdkConfig, Config}
use dra_linux_networks.Config.Load.{load, load_dpdk, load_interface, load_pool}
use dra_linux_networks.Config.Load.Valid.{IsLoaded, IsLoadedPool, load-IsLoaded}
use dra_linux_networks.Driver.{NetworkConfig, DeviceConfig, PodConfig}
use dra_linux_networks.Driver.Network.{validate_config}
use dra_linux_networks.Driver.Network.Checks.{Allows, validate_config_iff_Allows}
use dra_linux_networks.Driver.Naming.{
  atoi, pod_interface_name, used_names, devices_or_none, validate_pod_interface_name,
}
use dra_linux_networks.Driver.Naming.Unused.{IsNew, pod_interface_name-IsNew}

abbrev no_network : NetworkConfig
no_network = record {
  type = "";
  mode = "";
  interface_name = "";
  mtu = pos 0;
  ip_pool = "";
  address = "";
  addresses = [];
  gateway = "";
  routes = [];
}

abbrev defaults : NetworkConfig
defaults = record no_network { type = "macvlan"; mode = "bridge"; interface_name = "net1" }

abbrev jumbo : NetworkConfig
jumbo = record no_network { mtu = pos 9000 }

abbrev private_mode : NetworkConfig
private_mode = record no_network { mode = "private" }

abbrev raw_interface : InterfaceConfig
raw_interface = record {
  name = "eth1";
  default = true;
  allocation_policy = "";
  types = "macvlan" ∷ [];
  macvlan_modes = [];
  ipvlan_modes = [];
  default_type = "";
  default_mode = "";
  default_pod_name = "";
  mtu = pos 0;
  allow_unsafe = false;
}

abbrev loaded_interface : InterfaceConfig
loaded_interface = record raw_interface {
  allocation_policy = "shared";
  macvlan_modes = "bridge" ∷ "private" ∷ "vepa" ∷ "passthru" ∷ [];
  ipvlan_modes = "l2" ∷ "l3" ∷ "l3s" ∷ [];
  default_type = "macvlan";
  default_mode = "bridge";
  default_pod_name = "net1";
}

validate_config_iff_Allows_example :
    (validate_config loaded_interface defaults ≡ ok tt) ↔ Allows loaded_interface defaults
validate_config_iff_Allows_example = validate_config_iff_Allows loaded_interface defaults

abbrev named_device : DeviceConfig
named_device = record {
  claim = record { namespace = "apps"; name = "nic-a" };
  claim_uid = "u-a";
  driver_name = "";
  pool_name = "";
  device_name = "eth1";
  share_id = none;
  parent_name = "eth1";
  allocation_policy = "shared";
  identity = record {
    kernel_driver = "";
    bus_type = "";
    pci_address = "";
    pcie_root = "";
    pci_vendor_id = "";
    pci_device_id = "";
  };
  host_device = none;
  dpdk = none;
  network = defaults;
  attached_if = "";
  hardware_address = "";
  lifecycle_state = "Prepared";
}

abbrev named_pod : Option PodConfig
named_pod =
    some (record { pod_uid = "p-a"; net_ns = ""; devices = some (("u-a/eth1", named_device) ∷ []) })

-- `net1` is in use, so the next name is taken.
name_run : pod_interface_name named_pod [] "" "nic" "u-b/eth1" "" ≡ ok "net2"
unfolding pod_interface_name lookup validate_pod_interface_name contains_any has_prefix trim_prefix
    trim_space parse_digits itoa atoi
name_run = refl

pod_interface_name-IsNew_example :
    ((cfg : DeviceConfig) × (lookup "u-b/eth1" (devices_or_none named_pod) ≡ some cfg)
      × (cfg.network.interface_name ≡ "net2"))
    ⊎ IsNew (used_names (devices_or_none named_pod)) "net2"
pod_interface_name-IsNew_example =
    pod_interface_name-IsNew named_pod [] "" "nic" "u-b/eth1" "" "net2" name_run

abbrev raw_pool : IpPool
raw_pool = record {
  name = "lan";
  subnet = "10.1.0.0/24";
  range_start = "10.1.0.4";
  range_end = "10.1.0.9";
  allocations = [];
  reservations = [];
  gateway = "";
  routes = [];
}

abbrev no_selector : PciSelector
no_selector = record { vendors = []; devices = []; pci_addresses = [] }

abbrev no_dpdk : DpdkConfig
no_dpdk = record {
  enabled = false;
  allow_unsafe_no_iommu = false;
  sysfs_path = "";
  dev_path = "";
  cdi_host_dev_path = "";
  cdi_path = "";
  pci_id_path = "";
  modules_path = "";
  allowed_kernel_drivers = [];
  drivers = [];
  pci_classes = none;
  include = no_selector;
  exclude = no_selector;
  compatible_driver_overrides = [];
}

abbrev raw_config : Config
raw_config = record {
  driver_name = "";
  interfaces = raw_interface ∷ [];
  ip_pools = raw_pool ∷ [];
  dpdk = no_dpdk;
}

abbrev loaded_config : Config
loaded_config = record {
  driver_name = "linux-net.dra.infinitydon.com";
  interfaces = loaded_interface ∷ [];
  ip_pools =
      record raw_pool {
        allocations =
            record { name = ""; addresses = []; range_start = "10.1.0.4"; range_end = "10.1.0.9" }
            ∷ [];
      }
      ∷ [];
  dpdk = no_dpdk;
}

load_run : load raw_config ≡ ok loaded_config
unfolding load load_dpdk load_interface load_pool
load_run = refl

load-IsLoaded_example :
    All IsLoaded loaded_config.interfaces
    × All IsLoadedPool loaded_config.ip_pools
    × (loaded_config.driver_name ≢ "")
load-IsLoaded_example = load-IsLoaded raw_config loaded_config load_run
