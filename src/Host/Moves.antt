-- ===== src/Host/Moves.antt =====
-- internal/driver/hostdevice.go: `attachHostDevice` and `restoreHostDevice`. Both may change the
-- device's configuration, also where they fail, so that they give it back beside the world.
pub mod Here
pub mod Back
pub mod Round
pub mod Again
pub mod Attach
use dra_linux_networks.Prelude.{
  ℕ, String, Bool, true, false, not, Option, none, some, List, [], ◌∷◌, Result, ok, err, ◌==◌, ◌&&◌,
  if◌then◌else◌,
}
use dra_linux_networks.Prelude.Int.{is_positive, eq_int}
use dra_linux_networks.Driver.{HostDeviceState, DeviceConfig}
use dra_linux_networks.Host.Kernel.{
  Fault, Link, Formats, HostError, kernel, during, state_missing, identity_changed, bad_text,
  namespace_unavailable, rollback_failed, find_host_device, open_namespace, set_host_device_down,
  move_into_pod, rename_in_pod, open_for_restore, move_back, find_restored, Action, Netlink, ◌>>=◌,
  ◌>>◌, done, fail, call, while, set_if,
}
use dra_linux_networks.Host.Link.{find_link, restore_link_state, add_address}

-- An error or nil, the configuration and the world that the method leaves.
abbrev pub Moved : Type 0 → Type 0
Moved W = Result HostError (Unit {0}) × DeviceConfig × W

-- The configuration of a device that is back.
abbrev pub restored_config : DeviceConfig → HostDeviceState → DeviceConfig
restored_config cfg host = record cfg {
  host_device = some (record host { restored = true });
  attached_if = "";
  lifecycle_state = "Restored";
}

abbrev pub attached_config : DeviceConfig → HostDeviceState → String → String → DeviceConfig
attached_config cfg host name address = record cfg {
  attached_if = name;
  hardware_address = address;
  host_device = some (record host { restored = false });
  lifecycle_state = "Attached";
}

module _ {W : Type 0} (N : Netlink W) (F : Formats) where
  -- `defer func() { _ = netns.Set(current) }()`
  unfoldable pub set_back : {A : Type 0} → ℕ → Result HostError A × W → Result HostError A × W
  set_back current (r, w) = (r, (N.netns_set current w).1)

  unfoldable pub inside : {A : Type 0} → ℕ → Action W A → Action W A
  inside current act w = set_back current (act w)

  unfoldable pub in_net_ns : {A : Type 0} → ℕ → Action W A → Action W A
  in_net_ns target act = do
    current ← call N.netns_get
    call (N.netns_set target)
    inside current act

  unfoldable pub plain_named : Link → String → Action W Link
  plain_named link name =
      if link.name == name
      then done link
      else call (N.link_set_name link name) >> call (N.link_by_name name)

  -- What is done in the pod's namespace to give the device back.
  unfoldable pub leave_pod : DeviceConfig → HostDeviceState → ℕ → Action W (Unit {0})
  leave_pod cfg host root = do
    found ← find_link N F cfg.attached_if host.original_mac
    call (N.link_set_down found)
    link ← plain_named found host.original_name
    call (N.link_set_ns_fd link root)

  unfoldable pub bring_back : String → DeviceConfig → HostDeviceState → Action W (Unit {0})
  bring_back ns_path cfg host = do
    root ← call N.netns_get
    target ← while open_for_restore (call (N.netns_from_path ns_path))
    while move_back (in_net_ns target (leave_pod cfg host root))
    link ← while find_restored (call (N.link_by_name host.original_name))
    restore_link_state N F link host

  unfoldable pub put_back :
      DeviceConfig → HostDeviceState → Result HostError (Unit {0}) × W → Moved W
  put_back cfg host (ok u, w) = (ok tt, restored_config cfg host, w)
  put_back cfg host (err e, w) = (err e, cfg, w)

  unfoldable pub restore_found :
      String → DeviceConfig → HostDeviceState → Result HostError Link × W → Moved W
  unfolding put_back
  restore_found ns_path cfg host (ok link, w) =
      put_back cfg host (restore_link_state N F link host w)
  restore_found ns_path cfg host (err e, w) =
      if ns_path == ""
      then (err (namespace_unavailable host.original_name), cfg, w)
      else put_back cfg host (bring_back ns_path cfg host w)

  unfoldable pub restore_of : String → DeviceConfig → Option HostDeviceState → W → Moved W
  unfolding restore_found
  restore_of ns_path cfg none w = (ok tt, cfg, w)
  restore_of ns_path cfg (some host) w =
      if host.restored
      then (ok tt, cfg, w)
      else restore_found ns_path cfg host (find_link N F host.original_name host.original_mac w)

  unfoldable pub restore_host_device : String → DeviceConfig → W → Moved W
  unfolding restore_of
  restore_host_device ns_path cfg w = restore_of ns_path cfg cfg.host_device w

  unfoldable pub pod_named : Link → String → Action W Link
  pod_named link name =
      if not (name == "") && not (name == link.name)
      then while rename_in_pod (call (N.link_set_name link name)) >> call (N.link_by_name name)
      else done link

  unfoldable pub add_networks : Link → List String → Action W (Unit {0})
  add_networks link [] = done tt
  add_networks link (text ∷ texts) = elim (F.parse_addr text) [
    | none ↦ fail (bad_text text)
    | some parsed ↦ add_address N F link parsed >> add_networks link texts
  ]

  -- What is done in the pod's namespace with the device that has come, and its name and address.
  unfoldable pub enter_pod : DeviceConfig → HostDeviceState → Action W (String × String)
  enter_pod cfg host = do
    found ← find_link N F host.original_name host.original_mac
    link ← pod_named found cfg.network.interface_name
    set_if (is_positive cfg.network.mtu && not (eq_int cfg.network.mtu link.mtu))
        (call (N.link_set_mtu link cfg.network.mtu))
    add_networks link cfg.network.addresses
    call (N.link_set_up link)
    done (link.name, link.hardware_addr)

  unfoldable pub after_move :
      HostDeviceState → Link → Result Fault (Unit {0}) × W → Result HostError (Unit {0}) × W
  after_move host link (ok u, w) = (ok tt, w)
  after_move host link (err e, w) =
      (err (during move_into_pod (kernel e)), (restore_link_state N F link host w).1)

  unfoldable pub move_to : HostDeviceState → Link → ℕ → Action W (Unit {0})
  unfolding after_move
  move_to host link target w = after_move host link (N.link_set_ns_fd link target w)

  -- The interface's PCI address, which internal/driver/inventory.go reads.
  module _ (pci_address : String → W → String) where
    unfoldable pub same_identity : DeviceConfig → HostDeviceState → Action W (Unit {0})
    same_identity cfg host w =
        if not (cfg.identity.pci_address == "")
          && not (pci_address host.original_name w == cfg.identity.pci_address)
        then (err (identity_changed host.original_name), w)
        else (ok tt, w)

    -- What comes before the pod's namespace is entered.
    unfoldable pub push_to_pod : String → DeviceConfig → HostDeviceState → Action W ℕ
    push_to_pod ns_path cfg host = do
      link ← while find_host_device (call (N.link_by_name host.original_name))
      same_identity cfg host
      target ← while open_namespace (call (N.netns_from_path ns_path))
      while set_host_device_down (call (N.link_set_down link))
      move_to host link target
      done target

    unfoldable pub rolled_back : HostError → Moved W → Moved W
    rolled_back e (ok u, cfg, w) = (err e, cfg, w)
    rolled_back e (err r, cfg, w) = (err (rollback_failed e r), cfg, w)

    unfoldable pub entered :
        String → DeviceConfig → HostDeviceState → Result HostError (String × String) × W → Moved W
    unfolding rolled_back
    entered ns_path cfg host (ok (name, address), w) =
        (ok tt, attached_config cfg host name address, w)
    entered ns_path cfg host (err e, w) = rolled_back e (restore_host_device ns_path cfg w)

    unfoldable pub pushed :
        String → DeviceConfig → HostDeviceState → Result HostError ℕ × W → Moved W
    unfolding entered
    pushed ns_path cfg host (ok target, w) =
        entered ns_path cfg host (in_net_ns target (enter_pod cfg host) w)
    pushed ns_path cfg host (err e, w) = (err e, cfg, w)

    unfoldable pub attach_of : String → DeviceConfig → Option HostDeviceState → W → Moved W
    unfolding pushed
    attach_of ns_path cfg none w = (err state_missing, cfg, w)
    attach_of ns_path cfg (some host) w = pushed ns_path cfg host (push_to_pod ns_path cfg host w)

    unfoldable pub attach_host_device : String → DeviceConfig → W → Moved W
    unfolding attach_of
    attach_host_device ns_path cfg w = attach_of ns_path cfg cfg.host_device w
