-- ===== src/Ipam/Claim/Kept.antt =====
-- `applyIPAM` leaves the pods of the node's store alone.
use dra_linux_networks.Prelude.{
  ℕ, String, ◌≡◌, refl, arith, ◌==◌, ok, err, some, none, Option, List, Result, Bool-cases,
  Option-cases, Result-cases, inl, inr,
}
use dra_linux_networks.Prelude.Dict.{Dict, lookup}
use dra_linux_networks.Net.{IpNet, parse_cidr}
use dra_linux_networks.Kube.{Accessors, ApiError, Server}
use dra_linux_networks.IpamApi.{ObjectReference, Allocation, find_for_claim}
use dra_linux_networks.Config.{IpPool}
use dra_linux_networks.Driver.{NetworkConfig, PodConfig}
use dra_linux_networks.Store.{Store, Faults, Outcome}
use dra_linux_networks.Store.Reserve.{reserve_ip-pods}
use dra_linux_networks.Ipam.Ranges.{allocation, reservation, validate_ip_ranges}
use dra_linux_networks.Ipam.Apply.{ApplyError}
use dra_linux_networks.Ipam.Pools.{reload_ip_pools}
use dra_linux_networks.Ipam.Claim.{
  IpamState, finish, settle, after_new, after_find, after_subnet, after_pool, apply_ipam,
}

abbrev pods_of : Store → Dict PodConfig
pods_of s = s.state.pods

module _ (A : Accessors) (S : Server) (sha256 : String → List ℕ) (node : String)
    (configured : List IpPool) (io : Faults) (claim pod : ObjectReference) where
  finish-pods :
      (net : NetworkConfig) (pool : IpPool) (address : String) (st : IpamState S)
      (call : Outcome × Store)
      → pods_of call.1 ≡ pods_of st.store
      → pods_of (finish A S sha256 node configured io claim pod net pool address st call).1.store
        ≡ pods_of st.store
  unfolding finish
  finish-pods net pool address st (err e, store) same = same
  finish-pods net pool address st (ok u, store) same = same

  settle-pods :
      (net : NetworkConfig) (pool : IpPool) (address : String) (st : IpamState S)
      → pods_of (settle A S sha256 node configured io claim pod net pool address st).1.store
        ≡ pods_of st.store
  unfolding settle
  settle-pods net pool address st =
      finish-pods net pool address st _
        (reserve_ip-pods io pool.name address claim.uid pod.uid st.store)

  after_new-pods :
      (net : NetworkConfig) (pool : IpPool) (st : IpamState S)
      (call : Result ApplyError String × S.World)
      → pods_of (after_new A S sha256 node configured io claim pod net pool st call).1.store
        ≡ pods_of st.store
  unfolding after_new
  after_new-pods net pool st (err e, w) = refl
  after_new-pods net pool st (ok address, w) =
      settle-pods net pool address (record st { world = w })

  after_find-pods :
      (net : NetworkConfig) (pool : IpPool) (subnet : IpNet) (st : IpamState S)
      (call : Result ApiError (Option Allocation) × S.World)
      → pods_of (after_find A S sha256 node configured io claim pod net pool subnet st call).1.store
        ≡ pods_of st.store
  unfolding after_find
  after_find-pods net pool subnet st (err e, w) = refl
  after_find-pods net pool subnet st (ok none, w) =
      after_new-pods net pool (record st { world = w }) _
  after_find-pods net pool subnet st (ok (some a), w) = elim (Bool-cases (a.pool == pool.name)) [
    | inl same ↦ rw same (settle-pods net pool a.address (record st { world = w }))
    | inr other ↦ rw other refl
  ]

  after_subnet-pods :
      (net : NetworkConfig) (pool : IpPool) (subnet : IpNet) (st : IpamState S)
      → pods_of (after_subnet A S sha256 node configured io claim pod net pool subnet st).1.store
        ≡ pods_of st.store
  unfolding after_subnet
  after_subnet-pods net pool subnet st =
      elim (Result-cases (validate_ip_ranges pool.name subnet allocation pool.allocations)) [
        | inr (e, bad) ↦ ground (arith)
        | inl (u, good) ↦
            elim (Result-cases
              (validate_ip_ranges pool.name subnet reservation pool.reservations)) [
                | inr (e, bad) ↦ ground (arith)
                | inl (v, fine) ↦ ground (
                  arith,
                  after_find-pods net pool subnet st (find_for_claim A S claim.uid st.world),
                )
              ]
      ]

  after_pool-pods :
      (net : NetworkConfig) (st : IpamState S) (found : Option IpPool)
      → pods_of (after_pool A S sha256 node configured io claim pod net st found).1.store
        ≡ pods_of st.store
  unfolding after_pool
  after_pool-pods net st none = refl
  after_pool-pods net st (some pool) = elim (Option-cases (parse_cidr pool.subnet)) [
    | inl bad ↦ ground (arith)
    | inr ((ip, subnet), good) ↦ ground (arith, after_subnet-pods net pool subnet st)
  ]

  -- Whatever `applyIPAM` answers, the pods of the store are those that were there.
  pub apply_ipam-pods :
      (net : NetworkConfig) (st : IpamState S)
      → pods_of (apply_ipam A S sha256 node configured io claim pod net st).1.store
        ≡ pods_of st.store
  unfolding apply_ipam
  apply_ipam-pods net st = elim (Bool-cases (net.ip_pool == "")) [
    | inl given ↦ ground (arith)
    | inr pooled ↦
        let loaded = reload_ip_pools A S configured st.world in
        ground (
          arith,
          after_pool-pods net (record st { world = loaded.1; pools = loaded.0 })
              (lookup net.ip_pool loaded.0),
        )
  ]
