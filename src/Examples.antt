-- ===== src/Examples.antt =====
-- The theorems at concrete inputs, with a server that keeps its objects in memory.
pub mod Allocations
pub mod Addresses
pub mod Node
pub mod Card
pub mod Devices
pub mod Moves
pub mod Pods
pub mod Reports
pub mod Sandbox
pub mod Preparing
use dra_linux_networks.Prelude.{ℕ, String, List, [], ◌∷◌}
use Prim.Native.String.{len}
use dra_linux_networks.Kube.{Fields}
use dra_linux_networks.Kube.Memory.{Cluster}
use dra_linux_networks.IpamApi.{ObjectReference, Allocation, new_allocation_object}

-- A hash that tells texts apart by their length.
abbrev pub by_length : String → List ℕ
by_length s = len s ∷ []

abbrev pub claim_a : ObjectReference
claim_a = record { namespace = "apps"; name = "nic-a"; uid = "u-a" }

abbrev pub claim_b : ObjectReference
claim_b = record { namespace = "apps"; name = "nic-bb"; uid = "u-b" }

abbrev pub pod_a : ObjectReference
pod_a = record { namespace = "apps"; name = "web"; uid = "p-a" }

abbrev pub allocation_a : Allocation
allocation_a = record {
  name = "";
  pool = "lan";
  address = "10.1.0.5/24";
  allocation_type = "Dynamic";
  claim = claim_a;
  pod = pod_a;
  node_name = "node-1";
}

abbrev pub allocation_b : Allocation
allocation_b = record allocation_a {
  address = "10.1.0.16/24";
  claim = claim_b;
  allocation_type = "Static";
}

abbrev pub object_a : Fields
object_a = new_allocation_object by_length allocation_a

abbrev pub object_b : Fields
object_b = new_allocation_object by_length allocation_b

-- A cluster with nothing, with the first allocation, and with both.
abbrev pub empty_cluster : Cluster
empty_cluster = record { pools = []; allocations = []; claims = [] }

abbrev pub cluster_a : Cluster
cluster_a = record { pools = []; allocations = object_a ∷ []; claims = [] }

abbrev pub cluster_b : Cluster
cluster_b = record { pools = []; allocations = object_b ∷ []; claims = [] }

abbrev pub cluster_ab : Cluster
cluster_ab = record { pools = []; allocations = object_a ∷ object_b ∷ []; claims = [] }
