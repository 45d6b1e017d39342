-- ===== src/Ipam/Claim.antt =====
-- `applyIPAM`: the address of a claim, found again or reserved, in the cluster and on the node.
pub mod Settled
pub mod Kept
use dra_linux_networks.Prelude.{
  ℕ, String, Bool, true, false, not, Option, none, some, List, [], ◌∷◌, ◌==◌, if◌then◌else◌, Result,
  ok, err,
}
use dra_linux_networks.Prelude.Dict.{Dict, lookup}
use dra_linux_networks.Net.{Ip, Ip4, IpNet, parse_cidr}
use dra_linux_networks.Kube.{Accessors, ApiError, Server}
use dra_linux_networks.IpamApi.{ObjectReference, Allocation, Failure, failed_exists, find_for_claim}
use dra_linux_networks.Config.{IpPool}
use dra_linux_networks.Driver.{NetworkConfig}
use dra_linux_networks.Store.{Store, Faults, Outcome, reserve_ip}
use dra_linux_networks.Ipam.Ranges.{
  RangeKind, allocation, reservation, IpamError, validate_ip_ranges, ip_in_ranges,
}
use dra_linux_networks.Ipam.Apply.{
  ApplyError, unknown_pool, bad_subnet, bad_range, find_failed, other_pool, cannot_store,
  not_reserved, nil_address, already_allocated, reserve_static, normalize_requested_address,
  static_value, apply_pool_routes, reserve_cluster_address, reserve_dynamic_address,
}
use dra_linux_networks.Ipam.Pools.{reload_ip_pools}

-- The cluster, and of the driver the store and the pools that it has loaded.
pub record IpamState (S : Server) : Type 0 where
  pub world : S.World
  pub store : Store
  pub pools : Dict IpPool

-- `netCfg.Address = address` and what follows it.
abbrev pub with_address : NetworkConfig → IpPool → String → NetworkConfig
with_address net pool address =
    apply_pool_routes (record net { address = address; addresses = address ∷ [] }) pool

module _ (A : Accessors) (S : Server) (sha256 : String → List ℕ) (node : String)
    (configured : List IpPool) (io : Faults) (claim pod : ObjectReference) where
  -- The end of the function, after the reservation on the node.
  finish :
      NetworkConfig
      → IpPool
      → String
      → IpamState S
      → Outcome × Store
      → Result ApplyError NetworkConfig × IpamState S
  finish net pool address st (err e, store) = (err (cannot_store e), record st { store = store })
  finish net pool address st (ok u, store) =
      (ok (with_address net pool address), record st { store = store })

  settle :
      NetworkConfig → IpPool → String → IpamState S → Result ApplyError NetworkConfig × IpamState S
  unfolding finish
  settle net pool address st =
      finish net pool address st (reserve_ip io pool.name address claim.uid pod.uid st.store)

  -- What follows for an accepted address. `ipToUint32` panics on a nil address, which ends the
  -- call here, with nothing written.
  reserve_fixed : IpPool → String → Option Ip4 → S.World → Result ApplyError String × S.World
  reserve_fixed pool address none w = (err (nil_address address), w)
  reserve_fixed pool address (some value) w = elim (ip_in_ranges value pool.reservations) [
    | false ↦ (err (not_reserved address), w)
    | true ↦
        let (r, w') =
          reserve_cluster_address A S sha256 node claim pod pool.name address "Static" w in
        elim r [
          | ok u ↦ (ok address, w')
          | err e ↦ (
            err (if failed_exists e then already_allocated address else reserve_static address e),
            w',
          )
        ]
  ]

  -- The address that the annotations of the pod ask for.
  static_address : IpPool → IpNet → String → S.World → Result ApplyError String × S.World
  unfolding reserve_fixed
  static_address pool subnet requested w = elim (normalize_requested_address subnet requested) [
    | err e ↦ (err e, w)
    | ok address ↦ reserve_fixed pool address (static_value address) w
  ]

  -- The two ways to a new address.
  new_address : NetworkConfig → IpPool → IpNet → S.World → Result ApplyError String × S.World
  unfolding static_address
  new_address net pool subnet w =
      if net.address == ""
      then reserve_dynamic_address A S sha256 node claim pod pool subnet w
      else static_address pool subnet net.address w

  after_new :
      NetworkConfig
      → IpPool
      → IpamState S
      → Result ApplyError String × S.World
      → Result ApplyError NetworkConfig × IpamState S
  unfolding settle
  after_new net pool st (err e, w) = (err e, record st { world = w })
  after_new net pool st (ok address, w) = settle net pool address (record st { world = w })

  after_find :
      NetworkConfig
      → IpPool
      → IpNet
      → IpamState S
      → Result ApiError (Option Allocation) × S.World
      → Result ApplyError NetworkConfig × IpamState S
  unfolding after_new new_address
  after_find net pool subnet st (err e, w) = (err (find_failed e), record st { world = w })
  after_find net pool subnet st (ok none, w) =
      after_new net pool (record st { world = w }) (new_address net pool subnet w)
  after_find net pool subnet st (ok (some a), w) =
      if a.pool == pool.name
      then settle net pool a.address (record st { world = w })
      else (err (other_pool a.pool), record st { world = w })

  after_subnet :
      NetworkConfig → IpPool → IpNet → IpamState S → Result ApplyError NetworkConfig × IpamState S
  unfolding after_find
  after_subnet net pool subnet st =
      elim (validate_ip_ranges pool.name subnet allocation pool.allocations) [
        | err e ↦ (err (bad_range e), st)
        | ok u ↦ elim (validate_ip_ranges pool.name subnet reservation pool.reservations) [
          | err e ↦ (err (bad_range e), st)
          | ok v ↦ after_find net pool subnet st (find_for_claim A S claim.uid st.world)
        ]
      ]

  after_pool :
      NetworkConfig → IpamState S → Option IpPool → Result ApplyError NetworkConfig × IpamState S
  unfolding after_subnet
  after_pool net st none = (err (unknown_pool net.ip_pool), st)
  after_pool net st (some pool) = elim (parse_cidr pool.subnet) [
    | none ↦ (err (bad_subnet pool.subnet), st)
    | some (ip, subnet) ↦ after_subnet net pool subnet st
  ]

  unfoldable pub apply_ipam :
      NetworkConfig → IpamState S → Result ApplyError NetworkConfig × IpamState S
  unfolding after_pool
  apply_ipam net st = elim (net.ip_pool == "") [
    | true ↦ (ok net, st)
    | false ↦
        let (pools, w) = reload_ip_pools A S configured st.world in
        let st' = record st { world = w; pools = pools } in
        after_pool net st' (lookup net.ip_pool pools)
  ]
