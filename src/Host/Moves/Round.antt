-- ===== src/Host/Moves/Round.antt =====
-- `snapshotHostDevice` and `restoreHostDevice`: what a device was before its pod, it is afterwards.
use dra_linux_networks.Prelude.{ℕ, String, false, Option, none, some, List, ◌≡◌, ◌⊎◌, map, to_lower}
use dra_linux_networks.Driver.{HostDeviceState, HostAddressState}
use dra_linux_networks.Host.Kernel.{Link, Address, Formats, Netlink}
use dra_linux_networks.Host.Laws.{Settings, IsNetlink}
use dra_linux_networks.Host.Link.{snapshot_addresses}

-- `netlink.ParseAddr` reads back the text that a network prints as.
pub record ParsesBack (F : Formats) : Type 0 where
  pub same :
      (text : String) (parsed : Address)
      → F.parse_addr text ≡ some parsed
      → parsed.ip_net ≡ some text

module _ {W : Type 0} (N : Netlink W) (F : Formats) (at : W → ℕ → Option Settings)
    (holds : W → ℕ → Option String → Type 0) (law : IsNetlink N at holds) where
  -- What `snapshotHostDevice` saves of a link with these addresses.
  abbrev snapshot : Link → String → List Address → HostDeviceState
  snapshot link pod_interface_name addresses = record {
    original_name = link.name;
    pod_interface_name = pod_interface_name;
    original_admin_up = link.up;
    original_oper_state = to_lower link.oper_state;
    original_mtu = link.mtu;
    original_mac = link.hardware_addr;
    original_addresses = map (λ (a : HostAddressState). a.cidr) (snapshot_addresses N F addresses);
    address_state = snapshot_addresses N F addresses;
    restored = false;
  }

  -- The link has this address, if it is one with a network.
  abbrev pub HasAgain : ℕ → W → Address → Type 0
  HasAgain i w a = (a.ip_net ≡ none) ⊎ holds w i a.ip_net
