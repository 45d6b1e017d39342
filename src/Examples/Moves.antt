-- ===== src/Examples/Moves.antt =====
-- A card that goes into a pod and comes back.
use dra_linux_networks.Prelude.{
  ℕ, String, Bool, true, false, none, some, List, [], ◌∷◌, ok, err, ◌≡◌, refl, ◌⊎◌, to_lower, ◌==◌,
  if◌then◌else◌, All,
}
use dra_linux_networks.Prelude.Int.{pos}
use dra_linux_networks.Driver.{DeviceConfig, HostDeviceState}
use dra_linux_networks.Host.Kernel.{
  Link, Address, Formats, HostError, bad_text, rollback_failed, ◌>>=◌, done, fail, call, while,
  set_if,
}
use dra_linux_networks.Host.Link.{
  link_with_address, found_by_name, found_or, find_link, saved_addresses, unless_exists,
  add_address, delete_addresses, peer_from, peer_of, address_from, saved_address, add_saved,
  hardware_from, set_hardware_address, named, restore_addresses, restore_link_state,
}
use dra_linux_networks.Host.Moves.{
  attached_config, restored_config, set_back, inside, in_net_ns, plain_named, leave_pod, bring_back,
  put_back, restore_found, restore_of, restore_host_device, pod_named, add_networks, enter_pod,
  after_move, move_to, same_identity, push_to_pod, rolled_back, entered, pushed, attach_of,
  attach_host_device,
}
use dra_linux_networks.Host.Moves.Back.{restore_host_device-Back}
use dra_linux_networks.Host.Moves.Again.{restore_host_device-again}
use dra_linux_networks.Host.Moves.Attach.{attach_host_device-undone, attach_host_device-stranded}
use dra_linux_networks.Host.Laws.{Settings, IsBack}
use dra_linux_networks.Examples.Card.{
  Card, node_kernel, node_at, NodeHolds, node_law, node_ns, node_kernel-IsThread,
}
use dra_linux_networks.Host.Held.{IsHeld}

-- Every text but the empty one is an address.
abbrev pub plain : String → Address
plain s = record {
  ip_net = some s;
  label = "";
  flags = pos 0;
  scope = pos 0;
  peer = none;
  broadcast = none;
  preferred_lft = pos 0;
  valid_lft = pos 0;
}

abbrev pub formats : Formats
formats = record {
  parse_addr = λ s. if s == "" then none else some (plain s);
  parse_ip_net = some;
  parse_ip = some;
  parse_mac = some;
}

abbrev pub eth1 : Link
eth1 = record {
  index = 7;
  name = "eth1";
  mtu = pos 1500;
  hardware_addr = "02:00:00:00:00:01";
  up = true;
  oper_state = "up";
  master_index = 0;
}

abbrev pub at_home : Card
at_home = record { place = 0; here = 0; link = eth1; addresses = [] }

abbrev pub saved : Bool → HostDeviceState
saved b = record {
  original_name = "eth1";
  pod_interface_name = "net1";
  original_admin_up = true;
  original_oper_state = "up";
  original_mtu = pos 1500;
  original_mac = "02:00:00:00:00:01";
  original_addresses = "10.0.0.1/24" ∷ [];
  address_state = [];
  restored = b;
}

abbrev pub device : Bool → List String → DeviceConfig
device b addresses = record {
  claim = record { namespace = "apps"; name = "nic-a" };
  claim_uid = "u-a";
  driver_name = "net.example.com";
  pool_name = "node-1";
  device_name = "eth1";
  share_id = none;
  parent_name = "eth1";
  allocation_policy = "exclusive";
  identity = record {
    kernel_driver = "";
    bus_type = "";
    pci_address = "";
    pcie_root = "";
    pci_vendor_id = "";
    pci_device_id = "";
  };
  host_device = some (saved b);
  dpdk = none;
  network = record {
    type = "host-device";
    mode = "";
    interface_name = "net1";
    mtu = pos 9000;
    ip_pool = "";
    address = "";
    addresses = addresses;
    gateway = "";
    routes = [];
  };
  attached_if = "";
  hardware_address = "";
  lifecycle_state = "Prepared";
}

abbrev pub no_pci : String → Card → String
no_pci name c = ""

abbrev pub in_pod : Card
in_pod = record at_home {
  place = 1;
  link = record eth1 { name = "net1"; mtu = pos 9000 };
  addresses = plain "10.1.0.5/24" ∷ [];
}

abbrev pub attached : DeviceConfig
attached =
    attached_config (device false ("10.1.0.5/24" ∷ [])) (saved false) "net1" "02:00:00:00:00:01"

-- The card comes into the pod with the claim's name, MTU and address.
attach_test :
    attach_host_device node_kernel formats no_pci "/run/netns/pod"
      (device false ("10.1.0.5/24" ∷ []))
      at_home
    ≡ (ok tt, attached, in_pod)
unfolding attach_host_device attach_of pushed entered push_to_pod same_identity move_to after_move
    enter_pod in_net_ns inside set_back pod_named add_networks add_address unless_exists find_link
    found_by_name set_if call while done fail ◌>>=◌
attach_test = refl

abbrev pub put_home : Card
put_home = record at_home { addresses = plain "10.0.0.1/24" ∷ [] }

abbrev pub home : DeviceConfig
home = restored_config attached (saved false)

restore_test :
    restore_host_device node_kernel formats "/run/netns/pod" attached in_pod
    ≡ (ok tt, home, put_home)
unfolding restore_host_device restore_of restore_found put_back bring_back leave_pod plain_named
    in_net_ns inside set_back find_link found_by_name found_or link_with_address restore_link_state
    named set_hardware_address hardware_from restore_addresses saved_addresses delete_addresses
    add_saved saved_address address_from peer_of peer_from add_address unless_exists set_if call
    while done fail to_lower ◌>>=◌
restore_test = refl

restore_host_device-Back_example :
    (home ≡ restored_config attached (saved false))
    × (node_ns put_home ≡ node_ns in_pod)
    × ((i : ℕ) × (s : Settings) × (node_at put_home i ≡ some s)
        × IsBack formats (saved false) s
        × All
            (IsHeld node_kernel formats node_at NodeHolds node_law i put_home)
            (saved_addresses (saved false)))
restore_host_device-Back_example =
    restore_host_device-Back node_kernel formats node_at NodeHolds node_law node_ns
      node_kernel-IsThread "/run/netns/pod" attached (saved false) in_pod home put_home refl refl
      restore_test

restore_host_device-again_example :
    restore_host_device node_kernel formats "" home put_home ≡ (ok tt, home, put_home)
restore_host_device-again_example =
    restore_host_device-again node_kernel formats "/run/netns/pod" "" attached home in_pod put_home
      restore_test

-- A claim with an address that is no address.
abbrev bad : Bool → DeviceConfig
bad b = device b ("" ∷ [])

abbrev half_way : Card
half_way = record at_home {
  place = 1;
  link = record eth1 { name = "net1"; mtu = pos 9000; up = false };
}

push_test :
    push_to_pod node_kernel formats no_pci "/run/netns/pod" (bad true) (saved true) at_home
    ≡ (ok 1, record at_home { place = 1; link = record eth1 { up = false } })
unfolding push_to_pod same_identity move_to after_move call while done fail ◌>>=◌
push_test = refl

enter_test :
    in_net_ns node_kernel formats 1
      (enter_pod node_kernel formats (bad true) (saved true))
      (record at_home { place = 1; link = record eth1 { up = false } })
    ≡ (err (bad_text ""), half_way)
unfolding enter_pod in_net_ns inside set_back pod_named add_networks add_address unless_exists
    find_link found_by_name set_if call while done fail ◌>>=◌
enter_test = refl

-- The card stays in the pod, and the thread is at home.
attach_host_device-stranded_example :
    attach_host_device node_kernel formats no_pci "/run/netns/pod" (bad true) at_home
    ≡ (err (bad_text ""), bad true, half_way)
attach_host_device-stranded_example =
    attach_host_device-stranded node_kernel formats no_pci "/run/netns/pod" (bad true) (saved true)
      1 (bad_text "") at_home (record at_home { place = 1; link = record eth1 { up = false } })
      half_way refl refl push_test enter_test

abbrev after_rollback : DeviceConfig
after_rollback = restored_config (bad false) (saved false)

rollback_test :
    attach_host_device node_kernel formats no_pci "/run/netns/pod" (bad false) at_home
    ≡ (err (bad_text ""), after_rollback, put_home)
unfolding attach_host_device attach_of pushed entered rolled_back push_to_pod same_identity move_to
    after_move enter_pod pod_named add_networks restore_host_device restore_of restore_found
    put_back bring_back leave_pod plain_named in_net_ns inside set_back find_link found_by_name
    found_or link_with_address restore_link_state named set_hardware_address hardware_from
    restore_addresses saved_addresses delete_addresses add_saved saved_address address_from peer_of
    peer_from add_address unless_exists set_if call while done fail to_lower ◌>>=◌
rollback_test = refl

attach_host_device-undone_example :
    (node_ns put_home ≡ node_ns at_home)
    × (((after_rollback ≡ bad false)
          × (push_to_pod node_kernel formats no_pci "/run/netns/pod"
                (bad false)
                (saved false)
                at_home
              ≡ (err (bad_text ""), put_home)))
        ⊎ ((after_rollback ≡ restored_config (bad false) (saved false))
            × ((i : ℕ) × (s : Settings) × (node_at put_home i ≡ some s)
                × IsBack formats (saved false) s
                × All
                    (IsHeld node_kernel formats node_at NodeHolds node_law i put_home)
                    (saved_addresses (saved false))))
        ⊎ ((after_rollback ≡ bad false)
            × ((e : HostError) × (r : HostError) × (bad_text "" ≡ rollback_failed e r))))
attach_host_device-undone_example =
    attach_host_device-undone node_kernel formats no_pci node_at NodeHolds node_law "/run/netns/pod"
      (bad false) (saved false) refl refl node_ns node_kernel-IsThread at_home (bad_text "")
      after_rollback put_home rollback_test

-- What is saved of the card at home with one address.
abbrev taken : HostDeviceState
taken = record (saved false) {
  address_state =
      record {
        cidr = "10.0.0.1/24";
        label = "";
        flags = pos 0;
        scope = pos 0;
        peer = "";
        broadcast = "";
        preferred_lft = pos 0;
        valid_lft = pos 0;
      }
      ∷ [];
}

abbrev taken_device : DeviceConfig
taken_device = record attached { host_device = some taken }
