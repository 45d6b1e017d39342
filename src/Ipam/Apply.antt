-- ===== src/Ipam/Apply.antt =====
-- `applyIPAM` and its steps. A claim and a pod are what the allocation records of them: their
-- namespace, name and UID. Each function takes the cluster and the node's store, and returns them.
pub mod Dynamic
pub mod Static
use dra_linux_networks.Prelude.{
  ℕ, String, ◌<>◌, Bool, true, false, not, Option, none, some, List, [], ◌∷◌, ◌++◌, map, eqb, ◌==◌,
  if◌then◌else◌, is_empty, Result, ok, err, ◌>>=◌, ◌>>◌, map_err,
}
use dra_linux_networks.Prelude.Decimal.{itoa}
use dra_linux_networks.Prelude.Dict.{Dict, lookup}
use dra_linux_networks.Net.{Ip4, to_u32, ip_string, Ip, to4, IpNet, parse_cidr, contains_ip}
use dra_linux_networks.Kube.{Accessors, ApiError, Server}
use dra_linux_networks.IpamApi.{
  ObjectReference, Allocation, Failure, failed_exists, reserve, find_for_claim,
}
use dra_linux_networks.Config as Config
use dra_linux_networks.Driver.{Route, NetworkConfig}
use dra_linux_networks.Store.{Store, Faults, StoreError, reserve_ip}
use dra_linux_networks.Ipam.Ranges.{
  RangeKind, allocation, reservation, IpamError, validate_ip_ranges, ip_in_ranges, expand_ip_range,
}

-- The errors, with what they wrap.
pub data ApplyError : Type 0 where
  unknown_pool bad_subnet no_free_addresses : String → ApplyError
  bad_range : IpamError → ApplyError
  find_failed : ApiError → ApplyError
  other_pool : String → ApplyError
  cannot_store : StoreError → ApplyError
  reserve_dynamic : String → Failure → ApplyError
  bad_request not_ipv4 outside prefix_differs not_reserved already_allocated : String → ApplyError
  nil_address : String → ApplyError
  reserve_static : String → Failure → ApplyError

-- A network that has the mask's length: `Mask.Size`.
abbrev mask_ones : IpNet → ℕ
mask_ones net = net.ones

unfoldable pub normalize_requested_address : IpNet → String → Result ApplyError String
normalize_requested_address subnet address = elim (parse_cidr address) [
  | none ↦ err (bad_request address)
  | some (ip, net) ↦ elim (to4 ip) [
    | none ↦ err (not_ipv4 address)
    | some v ↦
        if not (contains_ip subnet v)
        then err (outside address)
        else if not (eqb (mask_ones subnet) (mask_ones net))
        then err (prefix_differs address)
        else ok (ip_string v <> ("/" <> itoa (mask_ones subnet)))
  ]
]

-- The address that `net.ParseCIDR` and `To4` give for an accepted text, none for a nil one.
unfoldable pub static_value : String → Option Ip4
static_value address = elim (parse_cidr address) [ none ↦ none | some (ip, net) ↦ to4 ip ]

unfoldable pub apply_pool_routes : NetworkConfig → Config.IpPool → NetworkConfig
apply_pool_routes net pool =
    if is_empty net.routes
    then record net {
      routes = map (λ r. record { destination = r.destination; gateway = r.gateway }) pool.routes;
    }
    else net

-- `expandIPRange`, whose loop always ends.
unfoldable pub expanded : Config.IpRange → List Ip4
expanded r = elim (expand_ip_range r) [ none ↦ [] | some ips ↦ ips ]

module _ (A : Accessors) (S : Server) (sha256 : String → List ℕ) (node : String)
    (claim pod : ObjectReference) where
  -- What `reserveClusterAddress` asks for.
  unfoldable pub requested : String → String → String → Allocation
  requested pool address kind = record {
    name = "";
    pool = pool;
    address = address;
    allocation_type = kind;
    claim = claim;
    pod = pod;
    node_name = node;
  }

  unfoldable pub reserve_cluster_address :
      String → String → String → S.World → Result Failure (Unit {0}) × S.World
  unfolding requested
  reserve_cluster_address pool address kind w =
      let (r, w') = reserve A S sha256 (requested pool address kind) w in
      (elim r [ ok o ↦ ok tt | err e ↦ err e ], w')

  -- The inner loop of `reserveDynamicAddress`; `none` if no address of the range was free.
  try_ips : Config.IpPool → ℕ → List Ip4 → S.World → Result ApplyError (Option String) × S.World
  try_ips pool ones [] w = (ok none, w)
  try_ips pool ones (ip ∷ ips) w = elim (ip_in_ranges ip pool.reservations) [
    | true ↦ try_ips pool ones ips w
    | false ↦
        let address = ip_string ip <> ("/" <> itoa ones) in
        let (r, w') = reserve_cluster_address pool.name address "Dynamic" w in
        elim r [
          | ok u ↦ (ok (some address), w')
          | err e ↦ elim (failed_exists e) [
            | false ↦ (err (reserve_dynamic address e), w')
            | true ↦ elim (eqb (to_u32 ip) 0xffffffff) [
              | true ↦ (ok none, w')
              | false ↦ try_ips pool ones ips w'
            ]
          ]
        ]
  ]

  try_ranges :
      Config.IpPool → ℕ → List Config.IpRange → S.World → Result ApplyError String × S.World
  unfolding try_ips expanded
  try_ranges pool ones [] w = (err (no_free_addresses pool.name), w)
  try_ranges pool ones (r ∷ ranges) w =
      let (answer, w') = try_ips pool ones (expanded r) w in
      elim answer [
        | err e ↦ (err e, w')
        | ok (some address) ↦ (ok address, w')
        | ok none ↦ try_ranges pool ones ranges w'
      ]

  unfoldable pub reserve_dynamic_address :
      Config.IpPool → IpNet → S.World → Result ApplyError String × S.World
  unfolding try_ranges
  reserve_dynamic_address pool subnet w = try_ranges pool (mask_ones subnet) pool.allocations w
