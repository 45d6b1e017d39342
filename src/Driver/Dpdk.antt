-- ===== src/Driver/Dpdk.antt =====
-- internal/driver/dpdk.go: which PCI devices the driver takes, and what it makes of their texts.
pub mod Unique
use dra_linux_networks.Prelude.{
  ℕ, zero, suc, Char, code, String, ◌<>◌, Bool, true, false, not, ◌&&◌, ◌||◌, Option, none, some,
  List, [], ◌∷◌, ◌==◌, if◌then◌else◌, is_empty, contains, has_prefix, trim_space, to_lower,
  to_upper, replace_all, leb, ltb, Result, ok, err,
}
use dra_linux_networks.Prelude.Int.{ℤ, is_zero}
use dra_linux_networks.Config.{PciSelector}
use dra_linux_networks.Driver.{Route, NetworkConfig}

pub data DpdkConfigError : Type 0 where
  requires_dpdk : String → DpdkConfigError
  not_supported : DpdkConfigError

unfoldable pub validate_dpdk_config : NetworkConfig → Result DpdkConfigError (Unit {0})
validate_dpdk_config cfg =
    if not (cfg.type == "") && not (cfg.type == "dpdk")
    then err (requires_dpdk cfg.type)
    else if not (cfg.mode == "")
        || not (cfg.interface_name == "")
        || not (is_zero cfg.mtu)
        || not (cfg.ip_pool == "")
        || not (cfg.address == "")
        || not (is_empty cfg.addresses)
        || not (cfg.gateway == "")
        || not (is_empty cfg.routes)
    then err not_supported
    else ok tt

unfoldable pub selector_allows : PciSelector → String → String → String → Bool → Bool
selector_allows selector address vendor device empty_matches =
    if is_empty selector.pci_addresses && is_empty selector.vendors && is_empty selector.devices
    then empty_matches
    else (is_empty selector.pci_addresses || contains selector.pci_addresses address)
      && (is_empty selector.vendors || contains selector.vendors vendor)
      && (is_empty selector.devices || contains selector.devices device)

has_allowed_prefix : String → List String → Bool
has_allowed_prefix class [] = false
has_allowed_prefix class (allowed ∷ classes) =
    if has_prefix class allowed then true else has_allowed_prefix class classes

unfoldable pub class_allowed : String → List String → Bool
unfolding has_allowed_prefix
class_allowed class classes = if is_empty classes then true else has_allowed_prefix class classes

-- The loop of `uniqueSorted`: the values in their normal form, each once; `seen` holds those that
-- have been taken.
unfoldable pub unique : String → List String → List String → List String
unique excluded seen [] = []
unique excluded seen (raw ∷ values) =
    let value = to_lower (trim_space raw) in
    elim (value == "" || value == to_lower excluded || contains seen value) [
      | true ↦ unique excluded seen values
      | false ↦ value ∷ unique excluded (value ∷ seen) values
    ]

-- The letters and digits of a name in upper case, and an underscore for every other character.
env_chars : String → String
env_chars String.[] = ""
env_chars (String.◌∷◌ c s) =
    let rest = env_chars s in
    let n = code c in
    if leb 65 n && leb n 90 || leb 48 n && leb n 57 then String.◌∷◌ c rest else "_" <> rest

unfoldable pub cdi_env_suffix : String → String
unfolding env_chars
cdi_env_suffix device_name = env_chars (to_upper device_name)

unfoldable pub dpdk_device_name : String → String
dpdk_device_name address = "pci-" <> replace_all (replace_all (to_lower address) 58 "-") 46 "-"
