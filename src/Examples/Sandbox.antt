-- ===== src/Examples/Sandbox.antt =====
-- A pod with a physical interface: it starts, stops and is gone.
use dra_linux_networks.Prelude.{
  ◌⊎◌, ◌∙◌, ap, All, trim_space, String, true, false, none, some, [], ◌∷◌, ok, err, ◌≡◌, refl,
  to_lower,
}
use dra_linux_networks.Prelude.Dict.{lookup, insert, remove}
use dra_linux_networks.Driver.{DeviceConfig}
use dra_linux_networks.Store.{
  Store, get_pod, persist_locked, set_device, delete_claim, allocation_for_claim,
}
use dra_linux_networks.Store.Devices.{device_at}
use dra_linux_networks.Host.Kernel.{fault, HostError, ◌>>=◌, done, fail, call, while, set_if}
use dra_linux_networks.Host.Link.{
  link_with_address, found_by_name, found_or, find_link, saved_addresses, unless_exists,
  add_address, delete_addresses, peer_from, peer_of, address_from, saved_address, add_saved,
  hardware_from, set_hardware_address, named, restore_addresses, restore_link_state,
}
use dra_linux_networks.Host.Moves.{
  set_back, inside, in_net_ns, plain_named, leave_pod, bring_back, put_back, restore_found,
  restore_of, restore_host_device,
}
use dra_linux_networks.Host.Child.{Links}
use dra_linux_networks.Plugin.Types.{
  Sandbox, KubePod, Services, Node, is_away, network_type, network_namespace, keep_device, quietly,
}
use dra_linux_networks.Plugin.Restore.{
  after_keep, after_restore, restore_one, restore_devices, published, restore_found_pod,
  restore_pod_host_devices, restore_pods, restore_claim_host_devices, told, tell_claim, tell_pod,
}
use dra_linux_networks.Plugin.Restored.{
  restore_pod_host_devices_done, restore_claim_host_devices_done,
}
use dra_linux_networks.Plugin.Unprepare.{
  Site, after_delete, after_cdi, after_cluster, after_status, after_restored, unprepare_claim,
}
use dra_linux_networks.Plugin.Cleared.{unprepare_claim_clears}
use dra_linux_networks.Kube.{Claim, Fields, ip_allocations}
use dra_linux_networks.Kube.Memory.{accessors, server, name_of, visible, find_named, remove_named}
use dra_linux_networks.Kube.Memory.Laws.{server-IsUndisturbed}
use dra_linux_networks.IpamApi.{
  delete_for_claim, is_of_claim, parse_allocation, allocation_name, new_allocation_object,
}
use dra_linux_networks.Store.DeleteClaim.{IsClear}
use dra_linux_networks.Examples.{cluster_ab, cluster_b}
use dra_linux_networks.Examples.Card.{Card, node_kernel}
use dra_linux_networks.Examples.Moves.{formats, device, at_home, in_pod, attached, home, put_home}

abbrev kube_pod : KubePod
kube_pod = record {
  namespace = "apps";
  name = "web";
  uid = "p-a";
  readiness_gates = [];
  annotations = [];
}

-- Every call is answered, and none changes the node.
abbrev pub answering : Services Card
answering = record {
  faults = λ c. (record { mkdir = false; open_file = false; write = false; rename = false }, c);
  get_pod = λ ns name c. (ok kube_pod, c);
  set_device_status = λ cfg ready reason message address c. (ok tt, c);
  set_pod_status = λ pod cfg c. (ok tt, c);
  set_pod_condition = λ pod ready reason message c. (ok tt, c);
  emit_pod_event = λ pod kind reason action note claim c. (ok tt, c);
  remove_device_status = λ claim c. (ok tt, c);
  remove_cdi_specs = λ uid c. (ok tt, c);
  publish = λ c. c;
}

abbrev no_links : Links Card
no_links = record {
  link_add = λ child c. (err (fault "not supported"), c);
  link_del = λ link c. (err (fault "not supported"), c);
  parse_cidr = λ s. none;
  parse_ip = λ s. none;
  route_add = λ index dst gw c. (ok tt, c);
}

abbrev sandbox : Sandbox
sandbox = record {
  uid = "p-a";
  namespace = "apps";
  name = "web";
  namespaces = some (("network", "/run/netns/pod") ∷ []);
}

abbrev store_of : String → DeviceConfig → Store
store_of ns cfg = record {
  path = "";
  state = record {
    pods =
        ("p-a", record { pod_uid = "p-a"; net_ns = ns; devices = some (("u-a/eth1", cfg) ∷ []) })
        ∷ [];
    ip_allocations = [];
  };
  disk = record { file = none; tmp = none; held = [] };
}

abbrev prepared : Node Card
prepared = record { store = store_of "" (device false ("10.1.0.5/24" ∷ [])); env = at_home }

abbrev quiet : HostError → String
quiet e = ""

abbrev running : Node Card
running = record { store = store_of "/run/netns/pod" attached; env = in_pod }

abbrev stopped : Node Card
stopped = record { store = store_of "/run/netns/pod" home; env = put_home }

stop_test : restore_pod_host_devices node_kernel formats answering sandbox running ≡ ([], stopped)
unfolding restore_pod_host_devices restore_found_pod restore_one after_restore after_keep
    restore_devices published told tell_claim tell_pod keep_device quietly network_namespace
    network_type get_pod persist_locked set_device lookup insert restore_host_device restore_of
    restore_found put_back bring_back leave_pod plain_named in_net_ns inside set_back find_link
    found_by_name found_or link_with_address restore_link_state named set_hardware_address
    hardware_from restore_addresses saved_addresses delete_addresses add_saved saved_address
    address_from peer_of peer_from add_address unless_exists set_if call while done fail to_lower
    ◌>>=◌
stop_test = refl

stopped_device : device_at "p-a" "u-a/eth1" stopped.store ≡ some home
unfolding get_pod lookup
stopped_device = refl

restore_pod_host_devices_done_example : is_away home ≡ false
restore_pod_host_devices_done_example =
    restore_pod_host_devices_done node_kernel formats answering sandbox running
      (ap (λ r. r.0) stop_test) "u-a/eth1" home
      (ap (λ r. device_at "p-a" "u-a/eth1" r.1.store) stop_test ∙ stopped_device)

claim_test : restore_claim_host_devices node_kernel formats answering "u-a" running ≡ ([], stopped)
unfolding restore_claim_host_devices restore_pods restore_one after_restore after_keep
    restore_devices published told tell_claim tell_pod keep_device quietly network_namespace
    network_type get_pod persist_locked set_device lookup insert restore_host_device restore_of
    restore_found put_back bring_back leave_pod plain_named in_net_ns inside set_back find_link
    found_by_name found_or link_with_address restore_link_state named set_hardware_address
    hardware_from restore_addresses saved_addresses delete_addresses add_saved saved_address
    address_from peer_of peer_from add_address unless_exists set_if call while done fail to_lower
    ◌>>=◌
claim_test = refl

restore_claim_host_devices_done_example : is_away home ≡ false
restore_claim_host_devices_done_example =
    restore_claim_host_devices_done node_kernel formats answering "u-a" running
      (ap (λ r. r.0) claim_test) "p-a" "u-a/eth1" home
      (ap (λ r. device_at "p-a" "u-a/eth1" r.1.store) claim_test ∙ stopped_device) refl

-- The claim's record, that of another claim, and the device that the pod has taken.
abbrev used : Site server Card
used = record { world = cluster_ab; node = running }

abbrev given_back : Site server Card
given_back = record {
  world = cluster_b;
  node = record {
    store = record {
      path = "";
      state = record { pods = []; ip_allocations = [] };
      disk = record { file = none; tmp = none; held = [] };
    };
    env = put_home;
  };
}

abbrev the_claim : Claim
the_claim = record { namespace = "apps"; name = "nic-a"; uid = "u-a" }

unprepare_test :
    unprepare_claim node_kernel formats answering accessors server true the_claim used
    ≡ (ok tt, given_back)
unfolding remove unprepare_claim after_restored after_status after_cluster after_cdi after_delete
    restore_claim_host_devices restore_pods delete_claim delete_for_claim parse_allocation
    trim_space allocation_name new_allocation_object name_of visible find_named remove_named
    restore_one after_restore after_keep restore_devices published told tell_claim tell_pod
    keep_device quietly network_namespace network_type get_pod persist_locked set_device lookup
    insert restore_host_device restore_of restore_found put_back bring_back leave_pod plain_named
    in_net_ns inside set_back find_link found_by_name found_or link_with_address restore_link_state
    named set_hardware_address hardware_from restore_addresses saved_addresses delete_addresses
    add_saved saved_address address_from peer_of peer_from add_address unless_exists set_if call
    while done fail to_lower ◌>>=◌
unprepare_test = refl

unprepare_claim_clears_example :
    ((server.stored cluster_b ip_allocations "no-such-name" ≡ none)
      ⊎ ((o : Fields) × (server.stored cluster_b ip_allocations "no-such-name" ≡ some o)
          × (is_of_claim "u-a" (parse_allocation accessors o) ≡ false)))
    × All (IsClear "u-a") given_back.node.store.state.pods
    × (allocation_for_claim "u-a" given_back.node.store ≡ none)
    × ((restore_claim_host_devices node_kernel formats answering "u-a" running).0 ≡ [])
unprepare_claim_clears_example =
    unprepare_claim_clears node_kernel formats answering accessors server server-IsUndisturbed true
      the_claim used given_back "no-such-name" unprepare_test
