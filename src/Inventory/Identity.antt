-- ===== src/Inventory/Identity.antt =====
-- internal/driver/inventory.go: an interface's identity, from sysfs.
use dra_linux_networks.Prelude.{
  Char, code, String, Bool, not, ◌&&◌, ◌||◌, Option, none, some, List, [], ◌∷◌, ◌==◌, if◌then◌else◌,
  has_prefix, trim_space, trim_prefix, to_lower, join, leb, eqb, ◌≡◌, refl,
}
use dra_linux_networks.Prelude.Dict.{Dict, insert}
use dra_linux_networks.Driver.{InterfaceIdentity}
use dra_linux_networks.Driver.Naming.{at_key}
use dra_linux_networks.Inventory.Paths.{
  Files, fields_func, split, is_slash, clean, join_path, base, scan_lines, cut_equals, matches,
}

is_hex : Char → Bool
is_hex c = let n = code c in leb 48 n && leb n 57 || leb 97 n && leb n 102 || leb 65 n && leb n 70

abbrev is_char : String → Char → Bool
is_char s c = String.◌∷◌ c "" == s

-- `pciAddressPattern` and `pcieRootPattern`
unfoldable pub is_pci_address : String → Bool
unfolding is_hex
is_pci_address s =
    let h = is_hex in
    let colon = is_char ":" in
    matches (h ∷ h ∷ h ∷ h ∷ colon ∷ h ∷ h ∷ colon ∷ h ∷ h ∷ is_char "." ∷ h ∷ []) s

unfoldable pub is_pcie_root : String → Bool
unfolding is_hex
is_pcie_root s =
    let h = is_hex in
    matches (is_char "p" ∷ is_char "c" ∷ is_char "i" ∷ h ∷ h ∷ h ∷ h ∷ is_char ":" ∷ h ∷ h ∷ []) s

-- The loop of `pciTopologyFromPath`, over the address and the root so far.
unfoldable pub topology_of : List String → String → String → String × String
topology_of [] address root = (address, root)
topology_of (component ∷ rest) address root =
    let at_root = is_pcie_root component && root == "" in
    topology_of rest
      (if not at_root && is_pci_address component then to_lower component else address)
      (if at_root then to_lower component else root)

unfoldable pub pci_topology_from_path : String → String × String
pci_topology_from_path path =
    topology_of (fields_func (λ c. is_slash c || eqb (code c) 92) (clean path)) "" ""

module _ (fs : Files) where
  unfoldable pub pci_topology_at : String → String → String × String
  pci_topology_at sysfs_path pci_address =
      elim (fs.eval_symlinks
        (join_path (sysfs_path ∷ "bus" ∷ "pci" ∷ "devices" ∷ pci_address ∷ []))) [
          | none ↦ (to_lower pci_address, "")
          | some target ↦
              let (address, root) = pci_topology_from_path target in
              (if address == "" then to_lower pci_address else address, root)
        ]

  read_lines : List String → Dict String → Dict String
  read_lines [] values = values
  read_lines (line ∷ rest) values =
      read_lines rest
        (elim (cut_equals line) [ none ↦ values | some (key, value) ↦ insert key value values ])

  unfoldable pub read_uevent : String → Dict String
  unfolding read_lines
  read_uevent path = elim (fs.read_file path) [
    | none ↦ []
    | some text ↦ read_lines (scan_lines text) []
  ]

  unfoldable pub trim_hex_file : String → String
  trim_hex_file path = elim (fs.read_file path) [
    | none ↦ ""
    | some text ↦ trim_prefix (to_lower (trim_space text)) "0x"
  ]

  bus_type_of : String → String
  bus_type_of name =
      if is_pci_address name
      then "pci"
      else if has_prefix name "virtio"
      then "virtio"
      else "platform"

  -- What the link of the device tells.
  from_target : Option String → InterfaceIdentity
  unfolding bus_type_of
  from_target none = record {
    kernel_driver = "";
    bus_type = "";
    pci_address = "";
    pcie_root = "";
    pci_vendor_id = "";
    pci_device_id = "";
  }
  from_target (some target) =
      let (address, root) = pci_topology_from_path target in
      record {
        kernel_driver = "";
        bus_type = bus_type_of (base target);
        pci_address = address;
        pcie_root = root;
        pci_vendor_id = "";
        pci_device_id = "";
      }

  -- `strings.Split(…, ":")` of two parts
  two_parts : List String → Option (String × String)
  two_parts (vendor ∷ device ∷ []) = some (to_lower vendor, to_lower device)
  two_parts [] = none
  two_parts (vendor ∷ []) = none
  two_parts (vendor ∷ device ∷ more ∷ rest) = none

  abbrev or_file : String → String → String
  or_file value path = if value == "" then trim_hex_file path else value

  unfoldable pub interface_identity_at : String → String → InterfaceIdentity
  unfolding from_target two_parts
  interface_identity_at sys_class_net name =
      let device = join_path (sys_class_net ∷ name ∷ "device" ∷ []) in
      let found = from_target (fs.eval_symlinks device) in
      let values = read_uevent (join_path (device ∷ "uevent" ∷ [])) in
      let driver : String = elim (fs.eval_symlinks (join_path (device ∷ "driver" ∷ []))) [
        | none ↦ ""
        | some target ↦ base target
      ] in
      let slot = at_key "PCI_SLOT_NAME" values in
      let ids : String × String =
        elim (two_parts (split (λ c. eqb (code c) 58) (at_key "PCI_ID" values))) [
          | none ↦ ("", "")
          | some both ↦ both
        ] in
      record found {
        kernel_driver = if at_key "DRIVER" values == "" then driver else at_key "DRIVER" values;
        bus_type = if slot == "" then found.bus_type else "pci";
        pci_address = if slot == "" then found.pci_address else slot;
        pci_vendor_id = or_file ids.0 (join_path (device ∷ "vendor" ∷ []));
        pci_device_id = or_file ids.1 (join_path (device ∷ "device" ∷ []));
      }

  unfoldable pub interface_identity : String → InterfaceIdentity
  interface_identity name = interface_identity_at "/sys/class/net" name

topology_test :
    pci_topology_from_path "/pci0000:3A/0000:3B:00.1/net" ≡ ("0000:3b:00.1", "pci0000:3a")
unfolding pci_topology_from_path topology_of fields_func split clean has_prefix join is_pcie_root
    is_pci_address matches to_lower
topology_test = refl
