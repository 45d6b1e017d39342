-- ===== src/Host/Child.antt =====
-- internal/driver/driver.go: `attachLink`, which makes a macvlan or ipvlan link on the host's
-- interface and moves it into the pod.
use dra_linux_networks.Prelude.{
  ℕ, String, not, Option, none, some, List, [], ◌∷◌, Result, ok, err, ◌==◌, ◌&&◌, if◌then◌else◌,
}
use dra_linux_networks.Prelude.Int.{ℤ, is_positive}
use dra_linux_networks.Driver.{DeviceConfig, Route}
use dra_linux_networks.Driver.Network.{MacvlanMode, IpvlanMode, macvlan_mode, ipvlan_mode}
use dra_linux_networks.Driver.Naming.{host_child_name}
use dra_linux_networks.Host.Kernel.{
  Fault, Link, Formats, HostError, kernel, unsupported_type, bad_text, Action, Call, Netlink, ◌>>=◌,
  ◌>>◌, done, fail, call, set_if,
}
use dra_linux_networks.Host.Moves.{in_net_ns, add_networks}

-- `netlink.Macvlan` and `netlink.IPVlan`
pub data ChildKind : Type 0 where
  macvlan : MacvlanMode → ChildKind
  ipvlan : IpvlanMode → ChildKind

-- The attributes of a link to be made; `none` is an MTU that is not set.
pub record Child : Type 0 where
  pub name : String
  pub parent_index : ℕ
  pub mtu : Option ℤ
  pub kind : ChildKind

-- The rest of netlink: a link that is made or deleted, and a route, by the index of its link, with
-- its destination and its gateway as `net.ParseCIDR` and `net.ParseIP` give them.
pub record Links (W : Type 0) : Type 0 where
  pub link_add : Child → Call W Link
  pub link_del : Link → Call W (Unit {0})
  pub parse_cidr : String → Option String
  pub parse_ip : String → Option String
  pub route_add : ℕ → Option String → Option String → Call W (Unit {0})

unfoldable pub child_kind : String → String → Option ChildKind
child_kind type mode =
    if type == "macvlan"
    then some (macvlan (macvlan_mode mode))
    else if type == "ipvlan"
    then some (ipvlan (ipvlan_mode mode))
    else none

module _ {W : Type 0} (N : Netlink W) (F : Formats) (L : Links W) where
  unfoldable pub route_to : Link → Option String → String → Action W (Unit {0})
  route_to link dst gw =
      call (L.route_add link.index dst (if gw == "" then none else L.parse_ip gw))

  unfoldable pub route_from : Link → String → String → Option String → Action W (Unit {0})
  route_from link text gw none = fail (bad_text text)
  route_from link text gw (some dst) = route_to link (some dst) gw

  unfoldable pub add_route : Link → String → String → Action W (Unit {0})
  add_route link dst gw =
      if dst == "" then route_to link none gw else route_from link dst gw (L.parse_cidr dst)

  unfoldable pub add_routes : Link → List Route → Action W (Unit {0})
  add_routes link [] = done tt
  add_routes link (route ∷ routes) =
      add_route link route.destination route.gateway >> add_routes link routes

  unfoldable pub delete_quietly : Link → W → W
  delete_quietly link w = (L.link_del link w).1

  -- `if old, err := netlink.LinkByName(name); err == nil { _ = netlink.LinkDel(old) }`
  unfoldable pub after_old : Result Fault Link × W → Result HostError (Unit {0}) × W
  after_old (ok old, w) = (ok tt, delete_quietly old w)
  after_old (err e, w) = (ok tt, w)

  unfoldable pub delete_old : String → Action W (Unit {0})
  delete_old name w = after_old (N.link_by_name name w)

  -- An error before the link has moved deletes it.
  unfoldable pub or_delete : {A : Type 0} → Link → Result Fault A × W → Result HostError A × W
  or_delete child (ok a, w) = (ok a, w)
  or_delete child (err e, w) = (err (kernel e), delete_quietly child w)

  unfoldable pub guarded : {A : Type 0} → Link → Call W A → Action W A
  guarded child c w = or_delete child (c w)

  unfoldable pub named_for_pod : Link → String → String → Action W Link
  named_for_pod link name wanted =
      if not (wanted == "") && not (wanted == name)
      then call (N.link_set_name link wanted) >> call (N.link_by_name wanted)
      else done link

  unfoldable pub enter_child : DeviceConfig → String → Action W String
  enter_child cfg name = do
    found ← call (N.link_by_name name)
    link ← named_for_pod found name cfg.network.interface_name
    add_networks N F link cfg.network.addresses
    call (N.link_set_up link)
    set_if (not (cfg.network.gateway == "")) (add_route link "0.0.0.0/0" cfg.network.gateway)
    add_routes link cfg.network.routes
    done link.hardware_addr

  unfoldable pub attach_kind : String → DeviceConfig → Link → Option ChildKind → Action W String
  attach_kind ns_path cfg parent none = fail (unsupported_type cfg.network.type)
  attach_kind ns_path cfg parent (some kind) = do
    delete_old (host_child_name cfg)
    child ← call (
        L.link_add (record {
          name = host_child_name cfg;
          parent_index = parent.index;
          mtu = if is_positive cfg.network.mtu then some cfg.network.mtu else none;
          kind = kind;
        }))
    target ← guarded child (N.netns_from_path ns_path)
    guarded child (N.link_set_ns_fd child target)
    in_net_ns N F target (enter_child cfg (host_child_name cfg))

  unfoldable pub attach_link : String → DeviceConfig → Action W String
  attach_link ns_path cfg = do
    parent ← call (N.link_by_name cfg.parent_name)
    attach_kind ns_path cfg parent (child_kind cfg.network.type cfg.network.mode)
