-- ===== src/Examples/Preparing.antt =====
-- A claim of a physical interface, prepared for a pod.
use dra_linux_networks.Prelude.{false, none, some, List, [], ◌∷◌, Result, ok, err}
use dra_linux_networks.Prelude.Int.{pos}
use dra_linux_networks.Config.{InterfaceConfig}
use dra_linux_networks.Kube.Memory.{accessors, server}
use dra_linux_networks.Driver.{InterfaceIdentity}
use dra_linux_networks.Plugin.Prepare.{PrepareError, Consumer, ClaimObject, Device}
use dra_linux_networks.Plugin.Inspect.{Inspect}
use dra_linux_networks.Plugin.Desk.{Desk, Setup}
use dra_linux_networks.Plugin.Claims.{prepare_claim}
use dra_linux_networks.Examples.{by_length, cluster_ab}
use dra_linux_networks.Examples.Card.{Card, node_kernel}
use dra_linux_networks.Examples.Moves.{formats, at_home}
use dra_linux_networks.Examples.Sandbox.{answering}

abbrev eth1_config : InterfaceConfig
eth1_config = record {
  name = "eth1";
  default = false;
  allocation_policy = "exclusive";
  types = "host-device" ∷ [];
  macvlan_modes = [];
  ipvlan_modes = [];
  default_type = "host-device";
  default_mode = "";
  default_pod_name = "net1";
  mtu = pos 0;
  allow_unsafe = false;
}

abbrev no_identity : InterfaceIdentity
no_identity = record {
  kernel_driver = "";
  bus_type = "";
  pci_address = "";
  pcie_root = "";
  pci_vendor_id = "";
  pci_device_id = "";
}

abbrev inspect : Inspect Card
inspect = record {
  route_list = λ link c. (ok (some "10.0.0.0/24" ∷ []), c);
  node_addresses = λ c. (ok (("InternalIP", "10.9.0.1") ∷ []), c);
  write_cdi_spec = λ uid device state c. (err "read-only", c);
  remove_file = λ path c. c;
  identity = λ name c. no_identity;
  ip_text = λ ip. "";
}

abbrev setup : Setup
setup = record {
  driver_name = "net.example.com";
  node_name = "node-1";
  interfaces = ("eth1", eth1_config) ∷ [];
  pools = [];
  dpdk_devices = [];
  decode = λ raw. err raw;
}

abbrev consumer : Consumer
consumer = record { api_group = ""; resource = "pods"; name = "web"; uid = "p-a" }

abbrev claim : ClaimObject
claim = record {
  namespace = "apps";
  name = "nic-a";
  uid = "u-a";
  annotations = [];
  reserved_for = consumer ∷ [];
  results =
      record {
        driver = "net.example.com";
        pool = "node-1";
        device = "eth1";
        request = "nic";
        share_id = none;
      }
      ∷ [];
  config = [];
}

abbrev empty_desk : Desk server Card
empty_desk = record {
  ipam = record {
    world = cluster_ab;
    store = record {
      path = "";
      state = record { pods = []; ip_allocations = [] };
      disk = record { file = none; tmp = none; held = [] };
    };
    pools = [];
  };
  env = at_home;
}

abbrev run : Result PrepareError (List Device) × Desk server Card
run =
    prepare_claim node_kernel formats answering inspect accessors server by_length setup claim
      empty_desk

abbrev one_device : List Device
one_device =
    record {
      requests = "nic" ∷ [];
      pool_name = "node-1";
      device_name = "eth1";
      cdi_device_ids = [];
    }
    ∷ []
