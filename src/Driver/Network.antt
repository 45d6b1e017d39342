-- ===== src/Driver/Network.antt =====
-- internal/driver/driver.go: a claim's network configuration, merged and checked.
pub mod Checks
use dra_linux_networks.Prelude.{
  String, Bool, true, false, not, Option, none, some, List, [], ◌∷◌, ◌==◌, if◌then◌else◌, is_empty,
  contains, Result, ok, err, ◌||◌,
}
use dra_linux_networks.Prelude.Int.{ℤ, is_positive}
use dra_linux_networks.Config.{InterfaceConfig}
use dra_linux_networks.Driver.{Route, NetworkConfig}

-- `if src != "" { dst = src }`, and the same for numbers and slices.
abbrev pub set_text : String → String → String
set_text dst src = if src == "" then dst else src

abbrev pub set_positive : ℤ → ℤ → ℤ
set_positive dst src = if is_positive src then src else dst

abbrev pub set_list : {A : Type 0} → List A → List A → List A
set_list dst [] = dst
set_list dst (x ∷ xs) = x ∷ xs

unfoldable pub merge_config : NetworkConfig → NetworkConfig → NetworkConfig
merge_config dst src = record {
  type = set_text dst.type src.type;
  mode = set_text dst.mode src.mode;
  interface_name = set_text dst.interface_name src.interface_name;
  mtu = set_positive dst.mtu src.mtu;
  ip_pool = set_text dst.ip_pool src.ip_pool;
  address = set_text dst.address src.address;
  addresses = set_list dst.addresses src.addresses;
  gateway = set_text dst.gateway src.gateway;
  routes = set_list dst.routes src.routes;
}

pub data ConfigError : Type 0 where
  type_not_allowed macvlan_not_allowed ipvlan_not_allowed : String → String → ConfigError
  needs_exclusive : String → ConfigError
  mode_not_supported : String → ConfigError

unfoldable pub validate_config : InterfaceConfig → NetworkConfig → Result ConfigError (Unit {0})
validate_config ifc cfg =
    if not (contains ifc.types cfg.type)
    then err (type_not_allowed ifc.name cfg.type)
    else if cfg.type == "macvlan"
    then (if not (contains ifc.macvlan_modes cfg.mode)
        then err (macvlan_not_allowed ifc.name cfg.mode)
        else ok tt)
    else if cfg.type == "ipvlan"
    then (if not (contains ifc.ipvlan_modes cfg.mode)
        then err (ipvlan_not_allowed ifc.name cfg.mode)
        else ok tt)
    else if cfg.type == "host-device"
    then (if not (ifc.allocation_policy == "exclusive")
        then err (needs_exclusive ifc.name)
        else if not (cfg.mode == "")
        then err (mode_not_supported cfg.mode)
        else ok tt)
    else ok tt

-- The modes of the package netlink.
pub data MacvlanMode : Type 0 where
  private vepa passthru bridge : MacvlanMode

pub data IpvlanMode : Type 0 where
  l2 l3 l3s : IpvlanMode

unfoldable pub macvlan_mode : String → MacvlanMode
macvlan_mode mode =
    if mode == "private"
    then private
    else if mode == "vepa"
    then vepa
    else if mode == "passthru"
    then passthru
    else bridge

unfoldable pub ipvlan_mode : String → IpvlanMode
ipvlan_mode mode = if mode == "l3" then l3 else if mode == "l3s" then l3s else l2
