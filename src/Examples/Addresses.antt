-- ===== src/Examples/Addresses.antt =====
-- Addresses, ranges and pools.
use dra_linux_networks.Prelude.{
  ◌<>◌, ◌≡◌, ◌≢◌, ◌↔◌, refl, true, false, none, some, List, [], ◌∷◌, In, ok, trim_space, arith,
}
use dra_linux_networks.Prelude.Decimal.{itoa, parse_digits}
use dra_linux_networks.Prelude.Dict.{Dict, lookup, insert}
use dra_linux_networks.Prelude.Int.{pos}
use dra_linux_networks.Net.{
  Ip4, IsIp4, to_u32, of_u32, ip_string, Ip, ip4, to4, IpNet, parse_ip, parse_ip4, parse_cidr,
  contains_ip, parse_ipv4,
}
use dra_linux_networks.Kube.{ip_pools}
use dra_linux_networks.Kube.Memory.{accessors, server, name_of, find_named, visible}
use dra_linux_networks.Kube.Memory.Laws.{accessors-IsAccessors, server-IsLinearizable}
use dra_linux_networks.IpamApi.{allocation_name, new_allocation_object, reserve, find_for_claim}
use dra_linux_networks.Config.{IpRange, IpPool}
use dra_linux_networks.Driver.{NetworkConfig, IpAllocation}
use dra_linux_networks.Store.{Store, Faults, reserve_ip, persist_locked}
use dra_linux_networks.Ipam.Ranges.{allocation, validate_ip_ranges, ip_in_ranges, expand_ip_range}
use dra_linux_networks.Ipam.Ranges.Expand.{
  InRange, Covered, expand_ip_range_lem, ip_in_ranges_iff_Covered,
}
use dra_linux_networks.Ipam.Ranges.Valid.{validate_ip_ranges_sound}
use dra_linux_networks.Ipam.Apply.{
  expanded, requested, reserve_cluster_address, reserve_dynamic_address,
  normalize_requested_address, apply_pool_routes,
}
use dra_linux_networks.Ipam.Apply.Dynamic.{IsDynamic, IsRecorded, reserve_dynamic_address-ok}
use dra_linux_networks.Ipam.Apply.Static.{normalize_requested_address-ok}
use dra_linux_networks.Ipam.Pools.{reload_ip_pools}
use dra_linux_networks.Ipam.Pools.Laws.{or_else, last_named, cluster_pools, lookup-reload_ip_pools}
use dra_linux_networks.Ipam.Claim.{IpamState, apply_ipam}
use dra_linux_networks.Ipam.Claim.Settled.{IsSettled, apply_ipam-IsSettled}
use dra_linux_networks.Examples.{by_length, claim_a, pod_a, empty_cluster, cluster_a}

abbrev some_ip : Ip4
some_ip = record { a = 10; b = 1; c = 0; d = 5 }

some_ip-IsIp4 : IsIp4 some_ip
some_ip-IsIp4 = ground arith

abbrev some_range : IpRange
some_range = record {
  name = "r";
  addresses = "10.1.0.9" ∷ [];
  range_start = "10.1.0.4";
  range_end = "10.1.0.5";
}

abbrev some_net : IpNet
some_net = record { ip = ip4 (record { a = 10; b = 1; c = 0; d = 0 }); ones = 24; bits = 32 }

expand_ip_range_lem_example :
    (ips : List Ip4) × (expand_ip_range some_range ≡ some ips)
    × ((ip : Ip4) → IsIp4 ip → In ip ips ↔ InRange (to_u32 ip) some_range)
expand_ip_range_lem_example = expand_ip_range_lem some_range

ip_in_ranges_iff_Covered_example :
    (ip_in_ranges some_ip (some_range ∷ []) ≡ true) ↔ Covered some_ip (some_range ∷ [])
ip_in_ranges_iff_Covered_example = ip_in_ranges_iff_Covered some_ip (some_range ∷ []) some_ip-IsIp4

valid_run : validate_ip_ranges "lan" some_net allocation (some_range ∷ []) ≡ ok tt
unfolding validate_ip_ranges parse_ip4 parse_ip parse_ipv4 contains_ip to4 to_u32
valid_run = refl

covered_run : ip_in_ranges some_ip (some_range ∷ []) ≡ true
unfolding ip_in_ranges parse_ip4 parse_ip parse_ipv4 to4 to_u32
covered_run = refl

validate_ip_ranges_sound_example : contains_ip some_net some_ip ≡ true
validate_ip_ranges_sound_example =
    validate_ip_ranges_sound "lan" some_net allocation (some_range ∷ []) some_ip some_ip-IsIp4
      valid_run (ip_in_ranges_iff_Covered_example.0 covered_run)

normal_run : normalize_requested_address some_net "10.1.0.5/24" ≡ ok "10.1.0.5/24"
unfolding normalize_requested_address parse_cidr parse_ip parse_ipv4 parse_digits contains_ip to4
    to_u32 ip_string itoa
normal_run = refl

normalize_requested_address-ok_example :
    (v : Ip4) × (contains_ip some_net v ≡ true)
    × ("10.1.0.5/24" ≡ ip_string v <> ("/" <> itoa some_net.ones))
    × (ip : Ip) × (net : IpNet) × (parse_cidr "10.1.0.5/24" ≡ some (ip, net))
    × (to4 ip ≡ some v)
    × (net.ones ≡ some_net.ones)
normalize_requested_address-ok_example =
    normalize_requested_address-ok some_net "10.1.0.5/24" "10.1.0.5/24" normal_run

abbrev some_pool : IpPool
some_pool = record {
  name = "lan";
  subnet = "10.1.0.0/24";
  range_start = "";
  range_end = "";
  allocations =
      record { name = ""; addresses = []; range_start = "10.1.0.4"; range_end = "10.1.0.6" } ∷ [];
  reservations =
      record { name = ""; addresses = "10.1.0.4" ∷ []; range_start = ""; range_end = "" } ∷ [];
  gateway = "";
  routes = [];
}

lan_named : trim_space "lan" ≢ ""
unfolding trim_space
lan_named e = cc

uid_named : claim_a.uid ≢ ""
uid_named e = cc

-- The first address of the range is reserved, so the second is taken.
dynamic_run :
    reserve_dynamic_address accessors server by_length "node-1" claim_a pod_a some_pool some_net
      empty_cluster
    ≡ (ok "10.1.0.5/24", cluster_a)
unfolding reserve_dynamic_address reserve_cluster_address requested expanded expand_ip_range
    ip_in_ranges parse_ip4 parse_ip parse_ipv4 contains_ip to4 to_u32 of_u32 ip_string itoa reserve
    find_named name_of new_allocation_object allocation_name
dynamic_run = refl

reserve_dynamic_address-ok_example :
    IsDynamic accessors accessors-IsAccessors server server-IsLinearizable by_length "node-1"
      claim_a pod_a uid_named some_pool some_net.ones some_pool.allocations "10.1.0.5/24"
    × IsRecorded accessors accessors-IsAccessors server server-IsLinearizable by_length "node-1"
        claim_a pod_a uid_named cluster_a "lan" "10.1.0.5/24" "Dynamic"
reserve_dynamic_address-ok_example =
    reserve_dynamic_address-ok accessors accessors-IsAccessors server server-IsLinearizable
      by_length "node-1" claim_a pod_a uid_named some_pool some_net "10.1.0.5/24" empty_cluster
      cluster_a lan_named dynamic_run

lookup-reload_ip_pools_example :
    lookup "lan" (reload_ip_pools accessors server (some_pool ∷ []) empty_cluster).0
    ≡ or_else
        (last_named "lan" (cluster_pools accessors (server.list ip_pools empty_cluster).0))
        (last_named "lan" (some_pool ∷ []))
lookup-reload_ip_pools_example =
    lookup-reload_ip_pools accessors server (some_pool ∷ []) empty_cluster "lan"

abbrev some_network : NetworkConfig
some_network = record {
  type = "macvlan";
  mode = "bridge";
  interface_name = "net1";
  mtu = pos 0;
  ip_pool = "lan";
  address = "";
  addresses = [];
  gateway = "";
  routes = [];
}

abbrev settled_network : NetworkConfig
settled_network = record some_network { address = "10.1.0.5/24"; addresses = "10.1.0.5/24" ∷ [] }

abbrev no_faults : Faults
no_faults = record { mkdir = false; open_file = false; write = false; rename = false }

abbrev store_with : Dict IpAllocation → Store
store_with m = record {
  path = "";
  state = record { pods = []; ip_allocations = m };
  disk = record { file = none; tmp = none; held = [] };
}

abbrev before : IpamState server
before = record { world = empty_cluster; store = store_with []; pools = [] }

abbrev after : IpamState server
after = record {
  world = cluster_a;
  store = store_with (
      ("u-a", record { pool = "lan"; address = "10.1.0.5/24"; claim_uid = "u-a"; pod_uid = "p-a" })
      ∷ []);
  pools = ("lan", some_pool) ∷ [];
}

apply_run :
    apply_ipam accessors server by_length "node-1"
      (some_pool ∷ [])
      no_faults
      claim_a
      pod_a
      some_network
      before
    ≡ (ok settled_network, after)
unfolding apply_ipam reload_ip_pools lookup insert visible find_for_claim validate_ip_ranges
    apply_pool_routes reserve_ip persist_locked reserve_dynamic_address reserve_cluster_address
    requested expanded expand_ip_range ip_in_ranges parse_ip4 parse_ip parse_ipv4 parse_cidr
    parse_digits contains_ip to4 to_u32 of_u32 ip_string itoa reserve find_named name_of
    new_allocation_object allocation_name
apply_run = refl

pool_given : some_network.ip_pool ≢ ""
pool_given e = cc

apply_ipam-IsSettled_example :
    (pool : IpPool) × (lookup "lan"
        (reload_ip_pools accessors server (some_pool ∷ []) empty_cluster).0
      ≡ some pool)
    × IsSettled accessors server by_length "node-1"
        (some_pool ∷ [])
        no_faults
        claim_a
        pod_a
        settled_network
        pool
        after
apply_ipam-IsSettled_example =
    apply_ipam-IsSettled accessors server by_length "node-1" (some_pool ∷ []) no_faults claim_a
      pod_a some_network settled_network before after pool_given apply_run
