-- ===== src/Driver/Types.antt =====
-- The records of internal/driver/types.go. A pointer that may be nil is an option.
use dra_linux_networks.Prelude.{String, Bool, Option, List}
use dra_linux_networks.Prelude.Int.{ℤ}
use dra_linux_networks.Prelude.Dict.{Dict}

pub record InterfaceIdentity : Type 0 where
  pub kernel_driver : String
  pub bus_type : String
  pub pci_address : String
  pub pcie_root : String
  pub pci_vendor_id : String
  pub pci_device_id : String

pub record DpdkDeviceState : Type 0 where
  pub pci_address : String
  pub pcie_root : String
  pub pci_class : String
  pub vendor_id : String
  pub vendor_name : String
  pub device_id : String
  pub device_name : String
  pub subsystem_vendor_id : String
  pub subsystem_device_id : String
  pub current_driver : String
  pub compatible_kernel_drivers : List String
  pub iommu_group : String
  pub iommu_mode : String
  pub numa_node : ℤ
  pub device_nodes : List String
  pub cdi_device_id : String
  pub cdi_spec_path : String

pub record HostAddressState : Type 0 where
  pub cidr : String
  pub label : String
  pub flags : ℤ
  pub scope : ℤ
  pub peer : String
  pub broadcast : String
  pub preferred_lft : ℤ
  pub valid_lft : ℤ

pub record HostDeviceState : Type 0 where
  pub original_name : String
  pub pod_interface_name : String
  pub original_admin_up : Bool
  pub original_oper_state : String
  pub original_mtu : ℤ
  pub original_mac : String
  pub original_addresses : List String
  pub address_state : List HostAddressState
  pub restored : Bool

pub record Route : Type 0 where
  pub destination : String
  pub gateway : String

pub record NetworkConfig : Type 0 where
  pub type : String
  pub mode : String
  pub interface_name : String
  pub mtu : ℤ
  pub ip_pool : String
  pub address : String
  pub addresses : List String
  pub gateway : String
  pub routes : List Route

-- `types.NamespacedName`
pub record NamespacedName : Type 0 where
  pub namespace : String
  pub name : String

pub record DeviceConfig : Type 0 where
  pub claim : NamespacedName
  pub claim_uid : String
  pub driver_name : String
  pub pool_name : String
  pub device_name : String
  pub share_id : Option String
  pub parent_name : String
  pub allocation_policy : String
  pub identity : InterfaceIdentity
  pub host_device : Option HostDeviceState
  pub dpdk : Option DpdkDeviceState
  pub network : NetworkConfig
  pub attached_if : String
  pub hardware_address : String
  pub lifecycle_state : String

-- `none` is the nil map.
pub record PodConfig : Type 0 where
  pub pod_uid : String
  pub net_ns : String
  pub devices : Option (Dict DeviceConfig)

pub record IpAllocation : Type 0 where
  pub pool : String
  pub address : String
  pub claim_uid : String
  pub pod_uid : String
