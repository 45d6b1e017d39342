-- ===== src/Config/Types.antt =====
-- The records of internal/config/config.go. A slice that JSON may leave nil is a list, except
-- `PCIClasses`, where the program tells nil from empty.
use dra_linux_networks.Prelude.{String, Bool, Option, List}
use dra_linux_networks.Prelude.Int.{ℤ}
use dra_linux_networks.Prelude.Dict.{Dict}

pub record IpRange : Type 0 where
  pub name : String
  pub addresses : List String
  pub range_start : String
  pub range_end : String

pub record Route : Type 0 where
  pub destination : String
  pub gateway : String

pub record IpPool : Type 0 where
  pub name : String
  pub subnet : String
  pub range_start : String
  pub range_end : String
  pub allocations : List IpRange
  pub reservations : List IpRange
  pub gateway : String
  pub routes : List Route

pub record InterfaceConfig : Type 0 where
  pub name : String
  pub default : Bool
  pub allocation_policy : String
  pub types : List String
  pub macvlan_modes : List String
  pub ipvlan_modes : List String
  pub default_type : String
  pub default_mode : String
  pub default_pod_name : String
  pub mtu : ℤ
  pub allow_unsafe : Bool

pub record PciSelector : Type 0 where
  pub vendors : List String
  pub devices : List String
  pub pci_addresses : List String

pub record DpdkConfig : Type 0 where
  pub enabled : Bool
  pub allow_unsafe_no_iommu : Bool
  pub sysfs_path : String
  pub dev_path : String
  pub cdi_host_dev_path : String
  pub cdi_path : String
  pub pci_id_path : String
  pub modules_path : String
  pub allowed_kernel_drivers : List String
  pub drivers : List String
  pub pci_classes : Option (List String)
  pub include : PciSelector
  pub exclude : PciSelector
  pub compatible_driver_overrides : Dict (List String)

pub record Config : Type 0 where
  pub driver_name : String
  pub interfaces : List InterfaceConfig
  pub ip_pools : List IpPool
  pub dpdk : DpdkConfig
