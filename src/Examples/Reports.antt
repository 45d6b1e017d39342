-- ===== src/Examples/Reports.antt =====
-- Conditions of a pod, texts of PCI devices, and annotations.
use dra_linux_networks.Prelude.{
  String, ◌<>◌, ◌≡◌, ◌≢◌, refl, some, [], ◌∷◌, ◌==◌, if◌then◌else◌, All, In, ok, trim_space,
  to_lower,
}
use dra_linux_networks.Prelude.Dict.{Dict, lookup}
use dra_linux_networks.Driver.Status.{PodCondition, set_pod_condition}
use dra_linux_networks.Driver.Status.Conditions.{
  condition_of, transition_time, condition_of-set_pod_condition,
}
use dra_linux_networks.Driver.Dpdk.{unique}
use dra_linux_networks.Driver.Dpdk.Unique.{AreDistinct, unique-AreDistinct}
use dra_linux_networks.Driver.Naming.{attr_prefix, pod_static_address}
use dra_linux_networks.Driver.Naming.Static.{IsAsked, pod_static_address-IsAsked}

abbrev waiting : PodCondition
waiting = record {
  type = "NetworkReady";
  status = "False";
  last_probe_time = "10:00";
  last_transition_time = "10:00";
  reason = "NetworkPrepared";
  message = "";
}

abbrev attached : PodCondition
attached = record waiting { status = "True"; last_transition_time = "10:05" }

condition_of-set_pod_condition_example :
    condition_of "NetworkReady" (set_pod_condition (waiting ∷ []) attached) ≡ (
      if attached.type == "NetworkReady"
      then some (record attached {
        last_transition_time = transition_time (condition_of attached.type (waiting ∷ [])) attached;
      })
      else condition_of "NetworkReady" (waiting ∷ []))
condition_of-set_pod_condition_example =
    condition_of-set_pod_condition (waiting ∷ []) attached "NetworkReady"

unique-AreDistinct_example :
    AreDistinct (unique "ixgbe" [] ("vfio-pci" ∷ " VFIO-PCI" ∷ "ixgbe" ∷ []))
    × All
        (λ v. (v ≢ "") × (v ≢ to_lower "ixgbe"))
        (unique "ixgbe" [] ("vfio-pci" ∷ " VFIO-PCI" ∷ "ixgbe" ∷ []))
unique-AreDistinct_example = unique-AreDistinct "ixgbe" [] ("vfio-pci" ∷ " VFIO-PCI" ∷ "ixgbe" ∷ [])

abbrev annotations : Dict String
annotations =
    ("linux-net.dra.infinitydon.com/nic.address", "10.1.0.7/24")
    ∷ ("linux-net.dra.infinitydon.com/nic.ip-pool", "lan")
    ∷ []

address_run : pod_static_address annotations "nic" "net1" "lan" ≡ ok "10.1.0.7/24"
unfolding pod_static_address lookup trim_space
address_run = refl

abbrev asked : String
asked = "10.1.0.7/24"

abbrev claim_pool : String
claim_pool = "lan"

not_empty : asked ≢ ""
not_empty e = cc

pod_static_address-IsAsked_example :
    (claim_pool ≢ "")
    × (base : String) × In base
        ((attr_prefix <> ("/" <> "nic")) ∷ (attr_prefix <> ("/" <> "net1")) ∷ [])
    × IsAsked annotations "lan" "10.1.0.7/24" base
pod_static_address-IsAsked_example =
    pod_static_address-IsAsked annotations "lan" "nic" "net1" "10.1.0.7/24" not_empty address_run
