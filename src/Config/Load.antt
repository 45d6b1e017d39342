-- ===== src/Config/Load.antt =====
-- `Load`, after the file has been read and decoded: the defaults and the checks.
pub mod Valid
use dra_linux_networks.Prelude.{
  ℕ, ◌+◌, String, Bool, true, false, not, ◌&&◌, ◌||◌, Option, none, some, List, [], ◌∷◌, map, ◌==◌,
  if◌then◌else◌, is_empty, to_lower, trim_space, trim_prefix, Result, ok, err, ◌>>=◌, ◌>>◌, fail_if,
}
use dra_linux_networks.Config.Types.{
  IpRange, IpPool, InterfaceConfig, PciSelector, DpdkConfig, Config,
}

-- The errors, with the index that their texts show.
pub data LoadError : Type 0 where
  no_iommu_needs_addresses : LoadError
  name_required bad_policy host_device_exclusive exclusive_host_device : ℕ → LoadError
  unsupported_type : ℕ → String → LoadError
  pool_name_required subnet_required allocations_required : ℕ → LoadError

abbrev pub default_driver_name : String
default_driver_name = "linux-net.dra.infinitydon.com"

-- `if value == "" { value = d }`, and the same for slices.
abbrev pub text_or : String → String → String
text_or d value = if value == "" then d else value

abbrev pub list_or : List String → List String → List String
list_or d [] = d
list_or d (x ∷ xs) = x ∷ xs

unfoldable pub normalize : String → String
normalize value = trim_prefix (to_lower (trim_space value)) "0x"

unfoldable pub normalize_selector : PciSelector → PciSelector
normalize_selector selector = record {
  vendors = map normalize selector.vendors;
  devices = map normalize selector.devices;
  pci_addresses = map normalize selector.pci_addresses;
}

-- `Drivers` and `AllowedKernelDrivers` share one array, so both are normalized.
unfoldable pub set_dpdk_defaults : DpdkConfig → DpdkConfig
set_dpdk_defaults cfg =
    let allowed =
      map normalize (list_or ("vfio-pci" ∷ []) (list_or cfg.drivers cfg.allowed_kernel_drivers)) in
    record cfg {
      sysfs_path = text_or "/sys" cfg.sysfs_path;
      dev_path = text_or "/dev" cfg.dev_path;
      cdi_host_dev_path = text_or "/dev" cfg.cdi_host_dev_path;
      cdi_path = text_or "/var/run/cdi" cfg.cdi_path;
      pci_id_path = text_or "/usr/share/misc/pci.ids" cfg.pci_id_path;
      modules_path = text_or "/host/lib/modules" cfg.modules_path;
      allowed_kernel_drivers = allowed;
      drivers = allowed;
      pci_classes = elim cfg.pci_classes [
        | none ↦ some (map normalize ("0200" ∷ []))
        | some classes ↦ some (map normalize classes)
      ];
      include = normalize_selector cfg.include;
      exclude = normalize_selector cfg.exclude;
    }

unfoldable pub load_dpdk : DpdkConfig → Result LoadError DpdkConfig
load_dpdk cfg = elim cfg.enabled [
  | false ↦ ok cfg
  | true ↦
      let cfg' = set_dpdk_defaults cfg in
      if cfg'.allow_unsafe_no_iommu && is_empty cfg'.include.pci_addresses
      then err no_iommu_needs_addresses
      else ok cfg'
]

-- The loop over the types: whether there is a host device, and whether a type that is shared.
scan_types : ℕ → List String → Bool → Bool → Result LoadError (Bool × Bool)
scan_types i [] host_device shared_type = ok (host_device, shared_type)
scan_types i (t ∷ types) host_device shared_type =
    let host = scan_types i types true shared_type in
    let shared = scan_types i types host_device true in
    if t == "host-device"
    then host
    else if t == "macvlan" || t == "ipvlan"
    then shared
    else err (unsupported_type i t)

-- `Types[0]` of types that are not empty.
abbrev pub first_type : List String → String
first_type [] = ""
first_type (t ∷ types) = t

-- The defaults that follow the checks of an interface.
fill_interface : InterfaceConfig → InterfaceConfig
fill_interface ifc =
    let default_type = text_or (first_type ifc.types) ifc.default_type in
    let is_host = default_type == "host-device" in
    record ifc {
      macvlan_modes = list_or ("bridge" ∷ "private" ∷ "vepa" ∷ "passthru" ∷ []) ifc.macvlan_modes;
      ipvlan_modes = list_or ("l2" ∷ "l3" ∷ "l3s" ∷ []) ifc.ipvlan_modes;
      default_type = default_type;
      default_mode = if is_host then ifc.default_mode else text_or "bridge" ifc.default_mode;
      default_pod_name =
          if is_host then ifc.default_pod_name else text_or "net1" ifc.default_pod_name;
    }

check_types : ℕ → InterfaceConfig → Bool × Bool → Result LoadError InterfaceConfig
unfolding fill_interface
check_types i ifc (host_device, shared_type) =
    if host_device && (not (ifc.allocation_policy == "exclusive") || shared_type)
    then err (host_device_exclusive i)
    else if not host_device && not (ifc.allocation_policy == "shared")
    then err (exclusive_host_device i)
    else ok (fill_interface ifc)

-- The defaults that come before the checks of an interface.
abbrev pub with_defaults : InterfaceConfig → InterfaceConfig
with_defaults raw = record raw {
  types = list_or ("macvlan" ∷ "ipvlan" ∷ []) raw.types;
  allocation_policy = text_or "shared" raw.allocation_policy;
}

-- The body of the loop over the interfaces.
unfoldable pub load_interface : ℕ → InterfaceConfig → Result LoadError InterfaceConfig
unfolding scan_types check_types
load_interface i raw =
    let ifc = with_defaults raw in
    if raw.name == ""
    then err (name_required i)
    else if not (ifc.allocation_policy == "shared") && not (ifc.allocation_policy == "exclusive")
    then err (bad_policy i)
    else scan_types i ifc.types false false >>= check_types i ifc

-- A pool of one range may give the range directly.
abbrev own_range : IpPool → List IpRange
own_range pool = elim pool.allocations [
  | r ∷ ranges ↦ r ∷ ranges
  | [] ↦
      if pool.range_start == "" || pool.range_end == ""
      then []
      else record {
        name = "";
        addresses = [];
        range_start = pool.range_start;
        range_end = pool.range_end;
      }
        ∷ []
]

-- The body of the loop over the pools.
unfoldable pub load_pool : ℕ → IpPool → Result LoadError IpPool
load_pool i pool =
    let pool' = record pool { allocations = own_range pool } in
    if pool.name == ""
    then err (pool_name_required i)
    else if pool.subnet == ""
    then err (subnet_required i)
    else if is_empty pool'.allocations
    then err (allocations_required i)
    else ok pool'

-- A loop over a slice by index, which stops at the first error.
load_each : {A : Type 0} → (ℕ → A → Result LoadError A) → ℕ → List A → Result LoadError (List A)
load_each step i [] = ok []
load_each step i (x ∷ xs) = do y ← step i x; ys ← load_each step (i + 1) xs; ok (y ∷ ys)

unfoldable pub load : Config → Result LoadError Config
unfolding load_each
load cfg = do
  dpdk ← load_dpdk cfg.dpdk
  interfaces ← load_each load_interface 0 cfg.interfaces
  pools ← load_each load_pool 0 cfg.ip_pools
  ok (record {
    driver_name = text_or default_driver_name cfg.driver_name;
    interfaces = interfaces;
    ip_pools = pools;
    dpdk = dpdk;
  })
