-- ===== src/Inventory/Discover.antt =====
-- internal/driver/dpdk.go: `discoverDPDKDevices`, which finds the PCI devices to offer.
use dra_linux_networks.Prelude.{
  ◌≡◌, refl, String, ◌<>◌, Bool, true, false, not, ◌&&◌, ◌||◌, Option, none, some, List, [], ◌∷◌,
  ◌++◌, ◌==◌, if◌then◌else◌, has_prefix, trim_space, to_lower, replace_all, ltb, join, contains,
  is_empty, is_space,
}
use dra_linux_networks.Prelude.Int.{ℤ, negsuc}
use dra_linux_networks.Prelude.Dict.{Dict, lookup, insert}
use dra_linux_networks.Config.{DpdkConfig}
use dra_linux_networks.Driver.{DpdkDeviceState}
use dra_linux_networks.Driver.Naming.{at_key, byte_len}
use dra_linux_networks.Driver.Dpdk.{selector_allows, class_allowed, unique, dpdk_device_name}
use dra_linux_networks.Inventory.Paths.{
  split, Files, fields_func, join_path, base, scan_lines, atoi, sort_texts,
}
use dra_linux_networks.Inventory.Identity.{pci_topology_at, trim_hex_file}

unfoldable pub unique_sorted : List String → String → List String
unique_sorted values excluded = sort_texts (unique excluded [] values)

-- `line[:4]` and `line[4:]`, of a line of ASCII.
first_four : String → String
first_four (String.◌∷◌ a (String.◌∷◌ b (String.◌∷◌ c (String.◌∷◌ d s)))) =
    String.◌∷◌ a (String.◌∷◌ b (String.◌∷◌ c (String.◌∷◌ d "")))
first_four s = s

after_four : String → String
after_four (String.◌∷◌ a (String.◌∷◌ b (String.◌∷◌ c (String.◌∷◌ d s)))) = s
after_four s = ""

-- The names of a device line: `fields[0]` and the rest, if there is one.
id_fields : List String → Option (String × String)
id_fields [] = none
id_fields (id ∷ []) = none
id_fields (id ∷ word ∷ words) = some (to_lower id, join (word ∷ words) " ")

-- The loop of `loadPCIIDs`, over the vendor and the names so far.
unfoldable pub read_ids : List String → String → Dict String → Dict String
unfolding first_four after_four id_fields
read_ids [] vendor names = names
read_ids (line ∷ rest) vendor names =
    let skipped = line == "" || has_prefix line "#" || has_prefix line "C " in
    let is_vendor = not skipped && (not (has_prefix line "\t") && ltb 6 (byte_len line)) in
    let is_device =
      not skipped && (has_prefix line "\t" && not (has_prefix line "\t\t") && not (vendor == "")) in
    let vendor' = if is_vendor then to_lower (trim_space (first_four line)) else vendor in
    read_ids rest vendor' (
      if is_vendor
      then insert ("v:" <> vendor') (trim_space (after_four line)) names
      else if is_device
      then elim (id_fields (fields_func is_space line)) [
        | none ↦ names
        | some (id, name) ↦ insert ("d:" <> (vendor <> (":" <> id))) name names
      ]
      else names)

abbrev pub list_of : Option (List String) → List String
list_of none = []
list_of (some l) = l

module _ (fs : Files) where
  unfoldable pub load_pci_ids : String → Dict String
  load_pci_ids path = elim (fs.read_file path) [
    | none ↦ []
    | some text ↦ read_ids (scan_lines text) "" []
  ]

  unfoldable pub symlink_base : String → String
  symlink_base path = elim (fs.eval_symlinks path) [ none ↦ "" | some target ↦ base target ]

  abbrev text_of_file : String → String
  text_of_file path = elim (fs.read_file path) [ none ↦ "" | some text ↦ text ]

  unfoldable pub read_int : String → ℤ → ℤ
  read_int path fallback = elim (atoi (trim_space (text_of_file path))) [
    | none ↦ fallback
    | some value ↦ value
  ]

  abbrev pub globbed : String → List String
  globbed pattern = list_of (fs.glob pattern)

  -- The single entry of a UIO device, if its node is there.
  unfoldable pub uio_nodes : DpdkConfig → List String → String × List String
  uio_nodes cfg (entry ∷ []) =
      if fs.file_exists (join_path (cfg.dev_path ∷ base entry ∷ []))
      then ("uio", join_path (cfg.cdi_host_dev_path ∷ base entry ∷ []) ∷ [])
      else ("", [])
  uio_nodes cfg [] = ("", [])
  uio_nodes cfg (entry ∷ other ∷ rest) = ("", [])

  unfoldable pub vfio_nodes : DpdkConfig → String → String × List String
  vfio_nodes cfg group =
      let control = join_path (cfg.cdi_host_dev_path ∷ "vfio/vfio" ∷ []) in
      let unsafe = "noiommu-" <> group in
      if not (fs.file_exists (join_path (cfg.dev_path ∷ "vfio/vfio" ∷ []))) || group == ""
      then ("", [])
      else if fs.file_exists (join_path (cfg.dev_path ∷ "vfio" ∷ group ∷ []))
      then ("iommu", control ∷ join_path (cfg.cdi_host_dev_path ∷ "vfio" ∷ group ∷ []) ∷ [])
      else if fs.file_exists (join_path (cfg.dev_path ∷ "vfio" ∷ unsafe ∷ []))
      then ("noiommu", control ∷ join_path (cfg.cdi_host_dev_path ∷ "vfio" ∷ unsafe ∷ []) ∷ [])
      else ("", [])

  unfoldable pub device_nodes : DpdkConfig → String → String → String → String × List String
  unfolding uio_nodes vfio_nodes
  device_nodes cfg device_path driver group =
      if driver == "vfio-pci"
      then vfio_nodes cfg group
      else if driver == "uio_pci_generic" || driver == "igb_uio"
      then uio_nodes cfg (globbed (join_path (device_path ∷ "uio/uio*" ∷ [])))
      else ("", [])

  -- The driver that a line of modules.alias names for the device.
  alias_driver : String → List String → List String
  alias_driver modalias (word ∷ pattern ∷ driver ∷ []) =
      if word == "alias" && fs.path_match (to_lower pattern) (to_lower modalias)
      then replace_all driver 95 "-" ∷ []
      else []
  alias_driver modalias _ = []

  aliases : String → List String → List String
  unfolding alias_driver
  aliases modalias [] = []
  aliases modalias (line ∷ rest) =
      alias_driver modalias (fields_func is_space line) ++ aliases modalias rest

  matched : String → List String → List String
  unfolding aliases
  matched modalias [] = []
  matched modalias (file ∷ rest) =
      aliases modalias (scan_lines (text_of_file file)) ++ matched modalias rest

  unfoldable pub compatible_kernel_drivers :
      DpdkConfig → String → String → String → String → List String
  unfolding matched
  compatible_kernel_drivers cfg device_path vendor device current =
      let override : List String =
        list_of (lookup (vendor <> (":" <> device)) cfg.compatible_driver_overrides) in
      let modalias = trim_space (text_of_file (join_path (device_path ∷ "modalias" ∷ []))) in
      if not (is_empty override)
      then unique_sorted override current
      else if modalias == ""
      then []
      else unique_sorted
          (matched modalias (globbed (join_path (cfg.modules_path ∷ "*" ∷ "modules.alias" ∷ []))))
          current

  -- `len(members) != 1`
  abbrev pub is_single : List String → Bool
  is_single [] = false
  is_single (member ∷ []) = true
  is_single (member ∷ other ∷ rest) = false

  -- The devices of an IOMMU group.
  unfoldable pub group_members : DpdkConfig → String → List String
  group_members cfg group =
      globbed (join_path (cfg.sysfs_path ∷ "kernel/iommu_groups" ∷ group ∷ "devices/*" ∷ []))

  -- Whether no `continue` passes the device over.
  unfoldable pub is_offered : DpdkConfig → DpdkDeviceState → Bool
  is_offered cfg state =
      if not (contains cfg.allowed_kernel_drivers (to_lower state.current_driver))
        || not (class_allowed state.pci_class (list_of cfg.pci_classes))
      then false
      else if not
            (selector_allows cfg.include state.pci_address state.vendor_id state.device_id true)
          || selector_allows cfg.exclude state.pci_address state.vendor_id state.device_id false
      then false
      else if is_empty state.device_nodes
      then false
      else if state.current_driver == "vfio-pci"
      then (if not (is_single (group_members cfg state.iommu_group))
          then false
          else not (state.iommu_mode == "noiommu" && not cfg.allow_unsafe_no_iommu))
      else true

  unfoldable pub device_state : DpdkConfig → Dict String → String → DpdkDeviceState
  device_state cfg names device_path =
      let file = λ (name : String). join_path (device_path ∷ name ∷ []) in
      let address = to_lower (base device_path) in
      let vendor = trim_hex_file fs (file "vendor") in
      let device = trim_hex_file fs (file "device") in
      let driver = symlink_base (file "driver") in
      let group = symlink_base (file "iommu_group") in
      let (mode, nodes) = device_nodes cfg device_path driver group in
      record {
        pci_address = address;
        pcie_root = (pci_topology_at fs cfg.sysfs_path address).1;
        pci_class = trim_hex_file fs (file "class");
        vendor_id = vendor;
        vendor_name = at_key ("v:" <> vendor) names;
        device_id = device;
        device_name = at_key ("d:" <> (vendor <> (":" <> device))) names;
        subsystem_vendor_id = trim_hex_file fs (file "subsystem_vendor");
        subsystem_device_id = trim_hex_file fs (file "subsystem_device");
        current_driver = driver;
        compatible_kernel_drivers = compatible_kernel_drivers cfg device_path vendor device driver;
        iommu_group = group;
        iommu_mode = mode;
        numa_node = read_int (file "numa_node") (negsuc 0);
        device_nodes = nodes;
        cdi_device_id = "";
        cdi_spec_path = "";
      }

  -- The loop; a device that is not offered is passed over.
  unfoldable pub discover_paths :
      DpdkConfig → Dict String → List String → Dict DpdkDeviceState → Dict DpdkDeviceState
  discover_paths cfg names [] devices = devices
  discover_paths cfg names (path ∷ paths) devices =
      let state = device_state cfg names path in
      discover_paths cfg names paths (
        if is_offered cfg state
        then insert (dpdk_device_name state.pci_address) state devices
        else devices)

  unfoldable pub discover_dpdk_devices : DpdkConfig → Option (Dict DpdkDeviceState)
  discover_dpdk_devices cfg =
      if not cfg.enabled
      then some []
      else elim (fs.glob (join_path (cfg.sysfs_path ∷ "bus/pci/devices/*" ∷ []))) [
        | none ↦ none
        | some paths ↦ some (discover_paths cfg (load_pci_ids cfg.pci_id_path) paths [])
      ]

-- The classes that follow the vendors are skipped, and their subclasses are taken for devices of
-- the last vendor.
ids_test :
    read_ids ("ffff  Illegal" ∷ "C 02  Network" ∷ "\t00  Ethernet" ∷ []) "" []
    ≡ ("v:ffff", "Illegal") ∷ ("d:ffff:00", "Ethernet") ∷ []
unfolding read_ids has_prefix byte_len trim_space to_lower insert fields_func split is_space join
ids_test = refl
