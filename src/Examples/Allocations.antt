-- ===== src/Examples/Allocations.antt =====
-- Records of addresses in the cluster.
use dra_linux_networks.Prelude.{◌≡◌, ◌≢◌, refl, some, ok, trim_space}
use dra_linux_networks.Kube.{ip_allocations}
use dra_linux_networks.Kube.Memory.{accessors, server, name_of, find_named, remove_named, visible}
use dra_linux_networks.Kube.Memory.Laws.{
  accessors-IsAccessors, server-IsLinearizable, server-IsUndisturbed,
}
use dra_linux_networks.IpamApi.{
  Allocation, allocation_name, new_allocation_object, parse_allocation, reserve, delete_for_claim,
  find_for_claim,
}
use dra_linux_networks.IpamApi.RoundTrip.{IsComplete, parse-new_allocation_object}
use dra_linux_networks.IpamApi.Exclusive.{Holds, reserve-Holds, reserve_exclusive}
use dra_linux_networks.IpamApi.Cleanup.{IsForeign, delete_for_claim_removes, delete_for_claim_keeps}
use dra_linux_networks.IpamApi.Find.{IsFound, find_for_claim-IsFound}
use dra_linux_networks.Examples.{
  by_length, allocation_a, allocation_b, object_a, object_b, empty_cluster, cluster_a, cluster_b,
  cluster_ab,
}

a-IsComplete : IsComplete allocation_a
unfolding trim_space
a-IsComplete = record { pool = λ e. cc; address = λ e. cc; uid = λ e. cc }

parse-new_allocation_object_example :
    parse_allocation accessors object_a
    ≡ ok (record allocation_a { name = allocation_name by_length "lan" "10.1.0.5/24" })
parse-new_allocation_object_example =
    parse-new_allocation_object accessors accessors-IsAccessors by_length allocation_a a-IsComplete

reserve_run :
    reserve accessors server by_length allocation_a empty_cluster ≡ (ok object_a, cluster_a)
unfolding reserve find_named
reserve_run = refl

reserve-Holds_example :
    Holds accessors accessors-IsAccessors server server-IsLinearizable by_length cluster_a
      allocation_a object_a
reserve-Holds_example =
    reserve-Holds accessors accessors-IsAccessors server server-IsLinearizable by_length
      allocation_a object_a empty_cluster cluster_a a-IsComplete reserve_run

-- A second request of the same claim, which finds the object.
reserve_again : reserve accessors server by_length allocation_a cluster_a ≡ (ok object_a, cluster_a)
unfolding reserve find_named name_of new_allocation_object allocation_name parse_allocation
    trim_space
reserve_again = refl

stored_a :
    server.stored cluster_a ip_allocations (allocation_name by_length "lan" "10.1.0.5/24")
    ≡ some object_a
unfolding find_named name_of new_allocation_object allocation_name
stored_a = refl

reserve_exclusive_example : allocation_a.claim.uid ≡ allocation_a.claim.uid
reserve_exclusive_example =
    reserve_exclusive accessors accessors-IsAccessors server server-IsLinearizable by_length
      allocation_a allocation_a object_a object_a empty_cluster cluster_a cluster_a cluster_a
      a-IsComplete a-IsComplete refl refl reserve_run reserve_again stored_a

delete_run : delete_for_claim accessors server "u-a" cluster_ab ≡ (ok tt, cluster_b)
unfolding delete_for_claim find_named remove_named visible name_of new_allocation_object
    allocation_name parse_allocation trim_space
delete_run = refl

stored_b :
    server.stored cluster_b ip_allocations (allocation_name by_length "lan" "10.1.0.16/24")
    ≡ some object_b
unfolding find_named name_of new_allocation_object allocation_name
stored_b = refl

abbrev found_b : Allocation
found_b = record allocation_b { name = allocation_name by_length "lan" "10.1.0.16/24" }

b_parses : parse_allocation accessors object_b ≡ ok found_b
unfolding name_of new_allocation_object allocation_name parse_allocation trim_space
b_parses = refl

delete_for_claim_removes_example : found_b.claim.uid ≢ "u-a"
delete_for_claim_removes_example =
    delete_for_claim_removes accessors server server-IsUndisturbed "u-a" cluster_ab cluster_b tt
      delete_run (allocation_name by_length "lan" "10.1.0.16/24") object_b stored_b found_b b_parses

b-IsForeign : IsForeign accessors server server-IsUndisturbed "u-a" object_b
b-IsForeign =
    delete_for_claim_removes accessors server server-IsUndisturbed "u-a" cluster_ab cluster_b tt
      delete_run (allocation_name by_length "lan" "10.1.0.16/24") object_b stored_b

stored_ab :
    server.stored cluster_ab ip_allocations (allocation_name by_length "lan" "10.1.0.16/24")
    ≡ some object_b
unfolding find_named name_of new_allocation_object allocation_name
stored_ab = refl

delete_for_claim_keeps_example :
    server.stored cluster_b ip_allocations (allocation_name by_length "lan" "10.1.0.16/24")
    ≡ some object_b
delete_for_claim_keeps_example =
    delete_for_claim_keeps accessors server server-IsUndisturbed "u-a" cluster_ab cluster_b (ok tt)
      (allocation_name by_length "lan" "10.1.0.16/24") object_b delete_run stored_ab b-IsForeign

find_run : find_for_claim accessors server "u-b" cluster_ab ≡ (ok (some found_b), cluster_ab)
unfolding find_for_claim find_named visible name_of new_allocation_object allocation_name
    parse_allocation trim_space
find_run = refl

find_for_claim-IsFound_example :
    IsFound accessors server server-IsUndisturbed "u-b" cluster_ab (some found_b)
    × (cluster_ab ≡ cluster_ab)
find_for_claim-IsFound_example =
    find_for_claim-IsFound accessors server server-IsUndisturbed "u-b" cluster_ab cluster_ab
      (some found_b) find_run
