-- ===== src/Plugin/Inspect.antt =====
-- internal/driver/hostdevice.go and driver.go: the look at a host device before a claim takes it.
use dra_linux_networks.Prelude.{
  String, Bool, true, false, not, ◌&&◌, ◌||◌, Option, none, some, List, [], ◌∷◌, Result, ok, err,
  ◌==◌, if◌then◌else◌, eqb,
}
use dra_linux_networks.Net.{Ip, parse_cidr}
use dra_linux_networks.Config.{InterfaceConfig}
use dra_linux_networks.Driver.{InterfaceIdentity, DpdkDeviceState, HostDeviceState, DeviceConfig}
use dra_linux_networks.Host.Kernel.{Fault, Link, HostError, Netlink, Formats}
use dra_linux_networks.Host.Link.{snapshot_host_device}
use dra_linux_networks.Plugin.Prepare.{PrepareError, unsafe_device, no_link, no_snapshot}

-- What else `prepareClaim` asks: the node's addresses and the routes of a link, as `d.client` and
-- `netlink` give them, the writing of a CDI specification, an
-- interface's identity, and `ip.String()`.
pub record Inspect (W : Type 0) : Type 0 where
  pub route_list : Link → W → Result Fault (List (Option String)) × W
  pub node_addresses : W → Result String (List (String × String)) × W
  pub write_cdi_spec : String → String → DpdkDeviceState → W → Result String (String × String) × W
  pub remove_file : String → W → W
  pub identity : String → W → InterfaceIdentity
  pub ip_text : Ip → String

-- `route.Dst == nil || …`
abbrev is_default : Option String → Bool
is_default none = true
is_default (some dst) = dst == "0.0.0.0/0" || dst == "::/0"

any_default : List (Option String) → Bool
any_default [] = false
any_default (route ∷ routes) = is_default route || any_default routes

module _ (ip_text : Ip → String) where
  -- Whether a saved address is the node's.
  has_address : String → List String → Bool
  has_address address [] = false
  has_address address (cidr ∷ cidrs) =
      let rest = has_address address cidrs in
      elim (parse_cidr cidr) [ none ↦ rest | some (ip, net) ↦ ip_text ip == address || rest ]

  node_address_of : List (String × String) → List String → Option String
  unfolding has_address
  node_address_of [] cidrs = none
  node_address_of ((type, address) ∷ rest) cidrs =
      let found = node_address_of rest cidrs in
      if (type == "InternalIP" || type == "ExternalIP") && has_address address cidrs
      then some address
      else found

-- A step of the method: an error or a value, and the world.
abbrev pub Asked : Type 0 → Type 0 → Type 0
Asked W A = Result PrepareError A × W

module _ {W : Type 0} (N : Netlink W) (I : Inspect W) where
  unfoldable pub judged :
      HostDeviceState → Result String (List (String × String)) × W → Asked W (Unit {0})
  unfolding node_address_of
  judged state (err e, w) = (err (unsafe_device e), w)
  judged state (ok addresses, w) =
      elim (node_address_of I.ip_text addresses state.original_addresses) [
        | none ↦ (ok tt, w)
        | some address ↦ (err (unsafe_device address), w)
      ]

  unfoldable pub routed :
      Link → HostDeviceState → Result Fault (List (Option String)) × W → Asked W (Unit {0})
  unfolding any_default
  routed link state (err e, w) = (err (no_link e), w)
  routed link state (ok routes, w) =
      if any_default routes
      then (err (unsafe_device link.name), w)
      else judged state (I.node_addresses w)

  unfoldable pub validate_host_device_safety : Link → HostDeviceState → W → Asked W (Unit {0})
  validate_host_device_safety link state w =
      if not (eqb link.master_index 0)
      then (err (unsafe_device link.name), w)
      else routed link state (I.route_list link w)

  unfoldable pub after_safety : HostDeviceState → Asked W (Unit {0}) → Asked W HostDeviceState
  after_safety state (ok u, w) = (ok state, w)
  after_safety state (err e, w) = (err e, w)

  unfoldable pub after_snapshot :
      InterfaceConfig → Link → Result HostError HostDeviceState × W → Asked W HostDeviceState
  after_snapshot ifc link (err e, w) = (err (no_snapshot e), w)
  after_snapshot ifc link (ok state, w) =
      if ifc.allow_unsafe
      then (ok state, w)
      else after_safety state (validate_host_device_safety link state w)

  unfoldable pub after_link :
      InterfaceConfig → String → Formats → Result Fault Link × W → Asked W HostDeviceState
  after_link ifc name F (err e, w) = (err (no_link e), w)
  after_link ifc name F (ok link, w) =
      after_snapshot ifc link (snapshot_host_device N F link name w)

  unfoldable pub with_host : DeviceConfig → Asked W HostDeviceState → Asked W DeviceConfig
  with_host cfg (ok state, w) = (ok (record cfg { host_device = some state }), w)
  with_host cfg (err e, w) = (err e, w)

  -- The state of a host device: what the store has of it, or a new snapshot.
  unfoldable pub host_part :
      Formats → InterfaceConfig → DeviceConfig → Option DeviceConfig → W → Asked W DeviceConfig
  host_part F ifc cfg (some existing) w = (ok existing, w)
  host_part F ifc cfg none w =
      with_host cfg (after_link ifc cfg.network.interface_name F (N.link_by_name ifc.name w))
