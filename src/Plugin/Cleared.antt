-- ===== src/Plugin/Cleared.antt =====
-- What an unprepared claim leaves behind, and what a claim that cannot be unprepared keeps.
use dra_linux_networks.Prelude.{
  String, ◌≡◌, refl, subst, Bool, false, none, some, List, [], ◌∷◌, Result, ok, err, All,
  if◌then◌else◌, ◌⊎◌, inl, inr, Option-cases,
}
use dra_linux_networks.Kube.{
  Fields, Accessors, ApiError, Server, Claim, ip_allocations, IsUndisturbed,
}
use dra_linux_networks.IpamApi.{delete_for_claim, is_of_claim, parse_allocation}
use dra_linux_networks.IpamApi.Cleanup.{
  IsForeign as IsOther, IsForeign-false, delete_for_claim_removes,
}
use dra_linux_networks.Store.{Store, Outcome, delete_claim, allocation_for_claim}
use dra_linux_networks.Store.DeleteClaim.{IsClear, delete_claim_clears}
use dra_linux_networks.Host.Kernel.{Netlink, Formats}
use dra_linux_networks.Plugin.Types.{Services, Node, PluginError}
use dra_linux_networks.Plugin.Restore.{restore_claim_host_devices}
use dra_linux_networks.Plugin.Unprepare.{
  Site, after_delete, after_cdi, after_cluster, after_status, after_restored, unprepare_claim,
}

module _ {W : Type 0} (N : Netlink W) (F : Formats) (V : Services W) (A : Accessors) (S : Server)
    (U : IsUndisturbed A S) (dpdk_enabled : Bool) (claim : Claim) where
  -- Neither the cluster nor the node has anything of the claim.
  abbrev pub IsCleared : Site S W → Type 0
  IsCleared site =
      ((n : String) (o : Fields)
        → S.stored site.world ip_allocations n ≡ some o
        → IsOther A S U claim.uid o)
      × All (IsClear claim.uid) site.node.store.state.pods
      × (allocation_for_claim claim.uid site.node.store ≡ none)

  after_delete-IsCleared :
      (w : S.World) (env : W) (p : Outcome × Store) (site : Site S W)
      → ((n : String) (o : Fields)
          → S.stored w ip_allocations n ≡ some o
          → IsOther A S U claim.uid o)
      → All (IsClear claim.uid) p.1.state.pods × (allocation_for_claim claim.uid p.1 ≡ none)
      → after_delete N F V A S dpdk_enabled w env p ≡ (ok tt, site)
      → IsCleared site
  unfolding after_delete
  after_delete-IsCleared w env (ok u, s) site others clear run =
      let here : ◌≡◌ {A = Site S W} (record { world = w; node = record { store = s; env = env } })
          site =
        cc in
      subst IsCleared here (others, clear.0, clear.1)
  after_delete-IsCleared w env (err e, s) site others clear run = absurd (cc)

  after_cdi-IsCleared :
      (w : S.World) (s : Store) (p : Result String (Unit {0}) × W) (site : Site S W)
      → ((n : String) (o : Fields)
          → S.stored w ip_allocations n ≡ some o
          → IsOther A S U claim.uid o)
      → after_cdi N F V A S dpdk_enabled claim w s p ≡ (ok tt, site)
      → IsCleared site
  unfolding after_cdi
  after_cdi-IsCleared w s (err e, env) site others run = absurd (cc)
  after_cdi-IsCleared w s (ok u, env) site others run =
      let io = (V.faults env).0 in
      after_delete-IsCleared w (V.faults env).1 (delete_claim io claim.uid s) site others
        (delete_claim_clears claim.uid io s) run

  after_cluster-IsCleared :
      (n : Node W) (w : S.World) (p : Result ApiError (Unit {0}) × S.World) (site : Site S W)
      → delete_for_claim A S claim.uid w ≡ p
      → after_cluster N F V A S dpdk_enabled claim n p ≡ (ok tt, site)
      → IsCleared site
  unfolding after_cluster
  after_cluster-IsCleared n w (err e, w') site deleted run = absurd (cc)
  after_cluster-IsCleared n w (ok u, w') site deleted run =
      after_cdi-IsCleared w' n.store
        (if dpdk_enabled then V.remove_cdi_specs claim.uid n.env else (ok tt, n.env)) site
        (delete_for_claim_removes A S U claim.uid w w' u deleted) run

  after_status-IsCleared :
      (w : S.World) (s : Store) (p : Result String (Unit {0}) × W) (site : Site S W)
      → after_status N F V A S dpdk_enabled claim w s p ≡ (ok tt, site)
      → IsCleared site
  unfolding after_status
  after_status-IsCleared w s (err e, env) site run = absurd (cc)
  after_status-IsCleared w s (ok u, env) site run =
      after_cluster-IsCleared (record { store = s; env = env }) w (delete_for_claim A S claim.uid w)
        site refl run

  after_restored-IsCleared :
      (w : S.World) (p : List PluginError × Node W) (site : Site S W)
      → after_restored N F V A S dpdk_enabled claim w p ≡ (ok tt, site)
      → IsCleared site × (p.0 ≡ [])
  unfolding after_restored
  after_restored-IsCleared w (e ∷ es, n) site run = absurd (cc)
  after_restored-IsCleared w ([], n) site run = (
    after_status-IsCleared w n.store
        (V.remove_device_status (record { namespace = claim.namespace; name = claim.name }) n.env)
        site run,
    refl,
  )

  -- What the cluster has under a name is not a record of the claim.
  no_record :
      (w : S.World) (n : String)
      → ((o : Fields) → S.stored w ip_allocations n ≡ some o → IsOther A S U claim.uid o)
      → (S.stored w ip_allocations n ≡ none)
        ⊎ ((o : Fields) × (S.stored w ip_allocations n ≡ some o)
            × (is_of_claim claim.uid (parse_allocation A o) ≡ false))
  no_record w n others = elim (Option-cases (S.stored w ip_allocations n)) [
    | inl missing ↦ inl missing
    | inr (o, there) ↦ inr (o, there, IsForeign-false A S U claim.uid o (others o there))
  ]

  -- When `UnprepareResourceClaims` reports no error for a claim, every host device of the claim
  -- was brought back without an error, the object that the cluster has under any name is not a
  -- record of the claim, no pod of the store has a device of the claim or is left without a
  -- device, and the store has no address of the claim; if no other client writes to the cluster
  -- during the call.
  pub unprepare_claim_clears :
      (site site' : Site S W) (n : String)
      → unprepare_claim N F V A S dpdk_enabled claim site ≡ (ok tt, site')
      → ((S.stored site'.world ip_allocations n ≡ none)
          ⊎ ((o : Fields) × (S.stored site'.world ip_allocations n ≡ some o)
              × (is_of_claim claim.uid (parse_allocation A o) ≡ false)))
        × All (IsClear claim.uid) site'.node.store.state.pods
        × (allocation_for_claim claim.uid site'.node.store ≡ none)
        × ((restore_claim_host_devices N F V claim.uid site.node).0 ≡ [])
  unfolding unprepare_claim
  unprepare_claim_clears site site' n run =
      let ((others, clear, free), back) =
        after_restored-IsCleared site.world (restore_claim_host_devices N F V claim.uid site.node)
          site' run in
      (no_record site'.world n (others n), clear, free, back)
