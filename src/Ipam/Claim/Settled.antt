-- ===== src/Ipam/Claim/Settled.antt =====
-- `applyIPAM`: what holds when it succeeds.
use dra_linux_networks.Prelude.{
  ℕ, String, ◌≡◌, ◌≢◌, refl, ap, ◌∙◌, sym, Option, none, some, List, [], ◌∷◌, arith, ◌==◌, eq_iff,
  is_empty, Result, ok, err, from_ok, inl, inr, Bool-cases, Result-cases, Option-cases,
}
use dra_linux_networks.Prelude.Dict.{lookup}
use dra_linux_networks.Net.{IpNet, parse_cidr}
use dra_linux_networks.Kube.{Accessors, ApiError, Server}
use dra_linux_networks.IpamApi.{ObjectReference, Allocation, find_for_claim}
use dra_linux_networks.Config.{IpPool}
use dra_linux_networks.Driver.{NetworkConfig, IpAllocation}
use dra_linux_networks.Store.{Store, Faults, Outcome, allocation_for_claim}
use dra_linux_networks.Store.Reserve.{reserve_ip-ok}
use dra_linux_networks.Ipam.Ranges.{allocation, reservation, validate_ip_ranges}
use dra_linux_networks.Ipam.Apply.{ApplyError, apply_pool_routes}
use dra_linux_networks.Ipam.Pools.{reload_ip_pools}
use dra_linux_networks.Ipam.Claim.{
  IpamState, with_address, finish, settle, after_new, after_find, after_subnet, after_pool,
  apply_ipam,
}

routes-address :
    (net : NetworkConfig) (pool : IpPool)
    → ((apply_pool_routes net pool).address ≡ net.address)
      × ((apply_pool_routes net pool).addresses ≡ net.addresses)
unfolding apply_pool_routes
routes-address net pool = elim (Bool-cases (is_empty net.routes)) [
  | inl empty ↦ rw empty (refl, refl)
  | inr full ↦ rw full (refl, refl)
]

module _ (A : Accessors) (S : Server) (sha256 : String → List ℕ) (node : String)
    (configured : List IpPool) (io : Faults) (claim pod : ObjectReference) where
  -- The configuration has one address, and the node records it for the claim, in this pool.
  abbrev pub IsSettled : NetworkConfig → IpPool → IpamState S → Type 0
  IsSettled net pool st =
      (net.addresses ≡ net.address ∷ [])
      × (a : IpAllocation) × (allocation_for_claim claim.uid st.store ≡ some a)
      × (a.pool ≡ pool.name)
      × (a.address ≡ net.address)

  -- What `settle` answers: the part that follows the reservation, `call`.
  finish-ok :
      (net net' : NetworkConfig) (pool : IpPool) (address : String) (st st' : IpamState S)
      (call : Outcome × Store)
      → (call.0 ≡ ok tt
          → (a : IpAllocation) × (allocation_for_claim claim.uid call.1 ≡ some a)
            × (a.pool ≡ pool.name)
            × (a.address ≡ address))
      → finish A S sha256 node configured io claim pod net pool address st call ≡ (ok net', st')
      → IsSettled net' pool st'
  unfolding finish
  finish-ok net net' pool address st st' (err e, store) found h = absurd (ground arith)
  finish-ok net net' pool address st st' (ok u, store) found h =
      let same : with_address net pool address ≡ net' = ap (λ t. from_ok net t.0) h in
      let after : store ≡ st'.store = ap (λ t. t.1.store) h in
      let (text, texts) =
        routes-address (record net { address = address; addresses = address ∷ [] }) pool in
      let (a, held, p, q) = found refl in
      let text' : address ≡ net'.address = sym text ∙ ap (λ n. n.address) same in
      (
        ap (λ n. n.addresses) (sym same) ∙ texts ∙ ap (λ s. s ∷ []) text',
        a,
        ap (allocation_for_claim claim.uid) (sym after) ∙ held,
        p,
        q ∙ text',
      )

  settle-ok :
      (net net' : NetworkConfig) (pool : IpPool) (address : String) (st st' : IpamState S)
      → settle A S sha256 node configured io claim pod net pool address st ≡ (ok net', st')
      → IsSettled net' pool st'
  unfolding settle
  settle-ok net net' pool address st st' h =
      finish-ok net net' pool address st st' _
        (reserve_ip-ok io pool.name address claim.uid pod.uid st.store) h

  after_new-ok :
      (net net' : NetworkConfig) (pool : IpPool) (st st' : IpamState S)
      (call : Result ApplyError String × S.World)
      → after_new A S sha256 node configured io claim pod net pool st call ≡ (ok net', st')
      → IsSettled net' pool st'
  unfolding after_new
  after_new-ok net net' pool st st' (err e, w) h = absurd (ground arith)
  after_new-ok net net' pool st st' (ok address, w) h = settle-ok net net' pool address _ st' h

  after_find-ok :
      (net net' : NetworkConfig) (pool : IpPool) (subnet : IpNet) (st st' : IpamState S)
      (call : Result ApiError (Option Allocation) × S.World)
      → after_find A S sha256 node configured io claim pod net pool subnet st call ≡ (ok net', st')
      → IsSettled net' pool st'
  unfolding after_find
  after_find-ok net net' pool subnet st st' (err e, w) h = absurd (ground arith)
  after_find-ok net net' pool subnet st st' (ok none, w) h =
      after_new-ok net net' pool (record st { world = w }) st' _ h
  after_find-ok net net' pool subnet st st' (ok (some a), w) h =
      elim (Bool-cases (a.pool == pool.name)) [
        | inl same ↦ settle-ok net net' pool a.address (record st { world = w }) st' (rw same at h)
        | inr other ↦ absurd (let no = rw other at h in ground arith)
      ]

  after_subnet-ok :
      (net net' : NetworkConfig) (pool : IpPool) (subnet : IpNet) (st st' : IpamState S)
      → after_subnet A S sha256 node configured io claim pod net pool subnet st ≡ (ok net', st')
      → IsSettled net' pool st'
        × (validate_ip_ranges pool.name subnet allocation pool.allocations ≡ ok tt)
        × (validate_ip_ranges pool.name subnet reservation pool.reservations ≡ ok tt)
  unfolding after_subnet
  after_subnet-ok net net' pool subnet st st' h =
      elim (Result-cases (validate_ip_ranges pool.name subnet allocation pool.allocations)) [
        | inr (e, bad) ↦ absurd (ground arith)
        | inl (u, good) ↦
            elim (Result-cases
              (validate_ip_ranges pool.name subnet reservation pool.reservations)) [
                | inr (e, bad) ↦ absurd (ground arith)
                | inl (v, fine) ↦ (
                  after_find-ok net net' pool subnet st st' (find_for_claim A S claim.uid st.world)
                      (ground arith),
                  good,
                  fine,
                )
              ]
      ]

  after_pool-ok :
      (net net' : NetworkConfig) (st st' : IpamState S) (found : Option IpPool)
      → after_pool A S sha256 node configured io claim pod net st found ≡ (ok net', st')
      → (pool : IpPool) × (found ≡ some pool) × IsSettled net' pool st'
  unfolding after_pool
  after_pool-ok net net' st st' none h = absurd (ground arith)
  after_pool-ok net net' st st' (some pool) h = elim (Option-cases (parse_cidr pool.subnet)) [
    | inl bad ↦ absurd (ground arith)
    | inr ((ip, subnet), good) ↦
        (pool, refl, (after_subnet-ok net net' pool subnet st st' (ground arith)).0)
  ]

  -- When `applyIPAM` succeeds for a network with a pool, the pool is known, the result has one
  -- address, and the node's store records this address, in this pool, for the claim, whether it was
  -- found in the cluster, asked for by the pod or chosen.
  pub apply_ipam-IsSettled :
      (net net' : NetworkConfig) (st st' : IpamState S)
      → net.ip_pool ≢ ""
      → apply_ipam A S sha256 node configured io claim pod net st ≡ (ok net', st')
      → (pool : IpPool) × (lookup net.ip_pool (reload_ip_pools A S configured st.world).0
          ≡ some pool)
        × IsSettled net' pool st'
  unfolding apply_ipam
  apply_ipam-IsSettled net net' st st' p h =
      let loaded = reload_ip_pools A S configured st.world in
      elim (Bool-cases (net.ip_pool == "")) [
        | inl empty ↦ absurd (p ((eq_iff net.ip_pool "").0 empty))
        | inr given ↦
            after_pool-ok net net' (record st { world = loaded.1; pools = loaded.0 }) st'
              (lookup net.ip_pool loaded.0) (ground arith)
      ]
