-- ===== src/Ipam/Pools/Laws.antt =====
-- Which pool `reloadIPPools` finds under a name.
use dra_linux_networks.Prelude.{
  String, ◌≡◌, refl, ◌∙◌, ap, Option, none, some, List, [], ◌∷◌, ◌==◌, Result, ok, err,
  Result-cases, inl, inr, arith, if◌then◌else◌,
}
use dra_linux_networks.Prelude.Dict.{Dict, lookup, insert, lookup-insert}
use dra_linux_networks.Kube.{Fields, Accessors, ip_pools, ApiError, Server}
use dra_linux_networks.Config.{IpPool}
use dra_linux_networks.Ipam.Pools.{
  PoolError, add_pool, add_listed, configured, reload_ip_pools, ip_pool_from_unstructured,
}

abbrev pub or_else : {A : Type 0} → Option A → Option A → Option A
or_else (some first) second = some first
or_else none second = second

-- The last pool with a name.
abbrev pub last_named : String → List IpPool → Option IpPool
last_named name [] = none
last_named name (pool ∷ pools) =
    or_else (last_named name pools) (if pool.name == name then some pool else none)

abbrev valid : Result PoolError IpPool → List IpPool → List IpPool
valid (ok pool) pools = pool ∷ pools
valid (err e) pools = pools

-- The pools that the objects of the cluster describe, without the objects that describe none.
abbrev pub valid_pools : Accessors → List Fields → List IpPool
valid_pools A [] = []
valid_pools A (o ∷ items) = valid (ip_pool_from_unstructured A o) (valid_pools A items)

-- The pools of the cluster, none if the list fails.
abbrev pub cluster_pools : Accessors → Result ApiError (List Fields) → List IpPool
cluster_pools A (ok items) = valid_pools A items
cluster_pools A (err e) = []

or_else_assoc : {A : Type 0} (a b c : Option A) → or_else (or_else a b) c ≡ or_else a (or_else b c)
or_else_assoc none b c = refl
or_else_assoc (some x) b c = refl

or_else-none : {A : Type 0} (a : Option A) → or_else a none ≡ a
or_else-none none = refl
or_else-none (some x) = refl

-- A pool that is put in is found if no later one has its name.
lookup-pool :
    (name : String) (later : Option IpPool) (p : IpPool) (pools : Dict IpPool)
    → or_else later (lookup name (insert p.name p pools))
      ≡ or_else (or_else later (if p.name == name then some p else none)) (lookup name pools)
lookup-pool name none p pools = ground (arith, lookup-insert p.name name p pools)
lookup-pool name (some x) p pools = refl

lookup-configured :
    (name : String) (cfg : List IpPool) (pools : Dict IpPool)
    → lookup name (configured cfg pools) ≡ or_else (last_named name cfg) (lookup name pools)
unfolding configured
lookup-configured name [] pools = refl
lookup-configured name (p ∷ cfg) pools =
    lookup-configured name cfg (insert p.name p pools)
    ∙ lookup-pool name (last_named name cfg) p pools

module _ (A : Accessors) where
  lookup-add_pool :
      (name : String) (r : Result PoolError IpPool) (later : List IpPool) (pools : Dict IpPool)
      → or_else (last_named name later) (lookup name (add_pool r pools))
        ≡ or_else (last_named name (valid r later)) (lookup name pools)
  unfolding add_pool
  lookup-add_pool name (ok p) later pools = lookup-pool name (last_named name later) p pools
  lookup-add_pool name (err e) later pools = refl

  lookup-add_listed :
      (name : String) (items : List Fields) (pools : Dict IpPool)
      → lookup name (add_listed A items pools)
        ≡ or_else (last_named name (valid_pools A items)) (lookup name pools)
  unfolding add_listed
  lookup-add_listed name [] pools = refl
  lookup-add_listed name (o ∷ items) pools =
      lookup-add_listed name items (add_pool (ip_pool_from_unstructured A o) pools)
      ∙ lookup-add_pool name (ip_pool_from_unstructured A o) (valid_pools A items) pools

  lookup-own :
      (name : String) (cfg : List IpPool) → lookup name (configured cfg []) ≡ last_named name cfg
  unfolding lookup
  lookup-own name cfg = lookup-configured name cfg [] ∙ or_else-none (last_named name cfg)

  -- After `reloadIPPools` a name stands for the last valid pool of the cluster with this name; if
  -- there is none, or the cluster's pools cannot be listed, for the last pool of the configuration
  -- with this name; and if there is none either, for no pool.
  pub lookup-reload_ip_pools :
      (S : Server) (cfg : List IpPool) (w : S.World) (name : String)
      → lookup name (reload_ip_pools A S cfg w).0
        ≡ or_else (last_named name (cluster_pools A (S.list ip_pools w).0)) (last_named name cfg)
  unfolding reload_ip_pools
  lookup-reload_ip_pools S cfg w name = elim (Result-cases (S.list ip_pools w).0) [
    | inr (e, failed) ↦ rw failed (lookup-own name cfg)
    | inl (items, listed) ↦ rw listed (
        lookup-add_listed name items (configured cfg [])
        ∙ ap (or_else (last_named name (valid_pools A items))) (lookup-own name cfg))
  ]
