-- ===== src/Examples/Devices.antt =====
-- A node with one PCI device, bound to vfio-pci and alone in its group.
use dra_linux_networks.Prelude.{
  String, ◌≡◌, ◌≢◌, ◌⊎◌, refl, ap, true, false, ◌||◌, none, some, [], ◌∷◌, ◌==◌, if◌then◌else◌, In,
  is_empty, to_lower, trim_space, trim_prefix, has_prefix, join, replace_all,
}
use dra_linux_networks.Prelude.Int.{negsuc}
use dra_linux_networks.Prelude.Dict.{Dict, lookup, insert}
use dra_linux_networks.Config.{PciSelector, DpdkConfig}
use dra_linux_networks.Driver.{DpdkDeviceState}
use dra_linux_networks.Driver.Dpdk.{selector_allows, class_allowed, dpdk_device_name}
use dra_linux_networks.Inventory.Paths.{Files, split, fields_func, clean, join_path, base, atoi}
use dra_linux_networks.Inventory.Identity.{pci_topology_at, trim_hex_file}
use dra_linux_networks.Inventory.Discover.{
  load_pci_ids, symlink_base, read_int, vfio_nodes, device_nodes, compatible_kernel_drivers,
  group_members, is_offered, device_state, discover_paths, discover_dpdk_devices,
}
use dra_linux_networks.Inventory.Published.{discover_dpdk_devices-IsSafe}

abbrev card_path : String
card_path = "/sys/bus/pci/devices/0000:3b:00.1"

abbrev node_files : Files
node_files = record {
  eval_symlinks = λ p.
      if p == "/sys/bus/pci/devices/0000:3b:00.1/driver"
      then some "/sys/bus/pci/drivers/vfio-pci"
      else if p == "/sys/bus/pci/devices/0000:3b:00.1/iommu_group"
      then some "/sys/kernel/iommu_groups/7"
      else none;
  read_file =
      λ p. if p == "/sys/bus/pci/devices/0000:3b:00.1/vendor" then some "0x8086\n" else none;
  glob = λ p.
      if p == "/sys/bus/pci/devices/*"
      then some (card_path ∷ [])
      else if p == "/sys/kernel/iommu_groups/7/devices/*"
      then some ("/sys/kernel/iommu_groups/7/devices/0000:3b:00.1" ∷ [])
      else some [];
  file_exists = λ p. p == "/dev/vfio/vfio" || p == "/dev/vfio/7";
  path_match = λ pattern name. false;
}

abbrev any : PciSelector
any = record { vendors = []; devices = []; pci_addresses = [] }

abbrev dpdk_config : DpdkConfig
dpdk_config = record {
  enabled = true;
  allow_unsafe_no_iommu = false;
  sysfs_path = "/sys";
  dev_path = "/dev";
  cdi_host_dev_path = "/dev";
  cdi_path = "/var/run/cdi";
  pci_id_path = "/usr/share/misc/pci.ids";
  modules_path = "/lib/modules";
  allowed_kernel_drivers = "vfio-pci" ∷ [];
  drivers = [];
  pci_classes = none;
  include = any;
  exclude = any;
  compatible_driver_overrides = [];
}

abbrev found_state : DpdkDeviceState
found_state = record {
  pci_address = "0000:3b:00.1";
  pcie_root = "";
  pci_class = "";
  vendor_id = "8086";
  vendor_name = "";
  device_id = "";
  device_name = "";
  subsystem_vendor_id = "";
  subsystem_device_id = "";
  current_driver = "vfio-pci";
  compatible_kernel_drivers = [];
  iommu_group = "7";
  iommu_mode = "iommu";
  numa_node = negsuc 0;
  device_nodes = "/dev/vfio/vfio" ∷ "/dev/vfio/7" ∷ [];
  cdi_device_id = "";
  cdi_spec_path = "";
}

state_test : device_state node_files dpdk_config [] card_path ≡ found_state
unfolding device_state trim_hex_file symlink_base device_nodes vfio_nodes pci_topology_at
    compatible_kernel_drivers read_int atoi join_path clean fields_func split base has_prefix join
    to_lower trim_space trim_prefix lookup
state_test = refl

offered_test : is_offered node_files dpdk_config found_state ≡ true
unfolding is_offered group_members class_allowed selector_allows join_path clean fields_func split
    has_prefix join to_lower
offered_test = refl

abbrev found_devices : Dict DpdkDeviceState
found_devices = ("pci-0000-3b-00-1", found_state) ∷ []

name_test : dpdk_device_name "0000:3b:00.1" ≡ "pci-0000-3b-00-1"
unfolding dpdk_device_name replace_all to_lower
name_test = refl

discover_test : discover_paths node_files dpdk_config [] (card_path ∷ []) [] ≡ found_devices
unfolding discover_paths insert
discover_test = rw (state_test, offered_test, name_test) refl

paths_test : discover_dpdk_devices node_files dpdk_config ≡ some found_devices
unfolding discover_dpdk_devices load_pci_ids join_path clean fields_func split has_prefix join
paths_test = ap some discover_test

here_test : lookup "pci-0000-3b-00-1" found_devices ≡ some found_state
unfolding lookup
here_test = refl

discover_dpdk_devices-IsSafe_example :
    (In (to_lower "vfio-pci") ("vfio-pci" ∷ [])
      × (is_empty found_state.device_nodes ≡ false)
      × ((found_state.current_driver ≢ "vfio-pci")
          ⊎ ((member : String) × (group_members node_files dpdk_config "7" ≡ member ∷ [])))
      × ((found_state.iommu_mode ≢ "noiommu") ⊎ (dpdk_config.allow_unsafe_no_iommu ≡ true)))
    × (◌≡◌ {A = String} "pci-0000-3b-00-1" (dpdk_device_name "0000:3b:00.1"))
discover_dpdk_devices-IsSafe_example =
    discover_dpdk_devices-IsSafe node_files dpdk_config found_devices "pci-0000-3b-00-1" found_state
      paths_test here_test
