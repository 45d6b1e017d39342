-- ===== src/Plugin/Unprepare.antt =====
-- internal/driver/driver.go: `UnprepareResourceClaims`, which gives a claim's devices and
-- addresses back, and `Synchronize`, after a restart.
use dra_linux_networks.Prelude.{
  String, Bool, List, [], ◌∷◌, Result, ok, err, ◌==◌, if◌then◌else◌, contains,
}
use dra_linux_networks.Prelude.Dict.{Dict, insert}
use dra_linux_networks.Kube.{Accessors, ApiError, Server, Claim}
use dra_linux_networks.IpamApi.{delete_for_claim}
use dra_linux_networks.Driver.{DeviceConfig, PodConfig}
use dra_linux_networks.Store.{Store, StoreError, Outcome, delete_claim, devices_of}
use dra_linux_networks.Host.Kernel.{Netlink, Formats}
use dra_linux_networks.Host.Moves.{Moved, restore_host_device}
use dra_linux_networks.Plugin.Types.{
  Sandbox, Services, Node, PluginError, network_namespace, is_away, keep_device, keep_net_ns,
}
use dra_linux_networks.Plugin.Restore.{restore_claim_host_devices}

-- The cluster beside the node.
pub record Site (S : Server) (W : Type 0) : Type 0 where
  pub world : S.World
  pub node : Node W

pub data UnprepareError : Type 0 where
  restore_host_device_failed : List PluginError → UnprepareError
  remove_status_failed : String → UnprepareError
  delete_allocation_failed : ApiError → UnprepareError
  remove_cdi_failed : String → UnprepareError
  delete_claim_failed : StoreError → UnprepareError

abbrev pub Unprepared : Type 0
Unprepared = Result UnprepareError (Unit {0})

module _ {W : Type 0} (N : Netlink W) (F : Formats) (V : Services W) (A : Accessors) (S : Server)
    (dpdk_enabled : Bool) where
  unfoldable pub after_delete : S.World → W → Outcome × Store → Unprepared × Site S W
  after_delete w env (ok u, s) =
      (ok tt, record { world = w; node = record { store = s; env = env } })
  after_delete w env (err e, s) =
      (err (delete_claim_failed e), record { world = w; node = record { store = s; env = env } })

  unfoldable pub after_cdi :
      Claim → S.World → Store → Result String (Unit {0}) × W → Unprepared × Site S W
  unfolding after_delete
  after_cdi claim w s (err e, env) =
      (err (remove_cdi_failed e), record { world = w; node = record { store = s; env = env } })
  after_cdi claim w s (ok u, env) =
      let (io, env') = V.faults env in after_delete w env' (delete_claim io claim.uid s)

  unfoldable pub after_cluster :
      Claim → Node W → Result ApiError (Unit {0}) × S.World → Unprepared × Site S W
  unfolding after_cdi
  after_cluster claim n (err e, w) =
      (err (delete_allocation_failed e), record { world = w; node = n })
  after_cluster claim n (ok u, w) =
      after_cdi claim w n.store
        (if dpdk_enabled then V.remove_cdi_specs claim.uid n.env else (ok tt, n.env))

  unfoldable pub after_status :
      Claim → S.World → Store → Result String (Unit {0}) × W → Unprepared × Site S W
  unfolding after_cluster
  after_status claim w s (err e, env) =
      (err (remove_status_failed e), record { world = w; node = record { store = s; env = env } })
  after_status claim w s (ok u, env) =
      after_cluster claim (record { store = s; env = env }) (delete_for_claim A S claim.uid w)

  unfoldable pub after_restored :
      Claim → S.World → List PluginError × Node W → Unprepared × Site S W
  unfolding after_status
  after_restored claim w (e ∷ es, n) =
      (err (restore_host_device_failed (e ∷ es)), record { world = w; node = n })
  after_restored claim w ([], n) =
      after_status claim w n.store
        (V.remove_device_status (record { namespace = claim.namespace; name = claim.name }) n.env)

  -- The loop's body, whose result is what the map holds for the claim.
  unfoldable pub unprepare_claim : Claim → Site S W → Unprepared × Site S W
  unfolding after_restored
  unprepare_claim claim site =
      after_restored claim site.world (restore_claim_host_devices N F V claim.uid site.node)

  unfoldable pub unprepare_resource_claims :
      List Claim → Dict Unprepared → Site S W → Dict Unprepared × Site S W
  unprepare_resource_claims [] result site = (result, site)
  unprepare_resource_claims (claim ∷ claims) result site =
      let (r, site') = unprepare_claim claim site in
      unprepare_resource_claims claims (insert claim.uid r result) site'

module _ {W : Type 0} (N : Netlink W) (F : Formats) (V : Services W) where
  -- The pods that run, and their namespaces; an error of the store is dropped.
  unfoldable pub note_active : List Sandbox → Node W → List String × Node W
  note_active [] n = ([], n)
  note_active (pod ∷ pods) n =
      let ns = network_namespace pod in
      let n' = if ns == "" then n else (keep_net_ns V pod.uid ns n).1 in
      let (active, n'') = note_active pods n' in (pod.uid ∷ active, n'')

  unfoldable pub after_orphan :
      String → String → Store → Moved W → Result StoreError (Unit {0}) × Node W
  after_orphan pod_uid name s (err e, cfg, env) = (ok tt, record { store = s; env = env })
  after_orphan pod_uid name s (ok u, cfg, env) =
      keep_device V pod_uid name cfg (record { store = s; env = env })

  unfoldable pub recover_one : String → String → DeviceConfig → Node W → Outcome × Node W
  unfolding after_orphan
  recover_one pod_uid name cfg n =
      if is_away cfg
      then after_orphan pod_uid name n.store (restore_host_device N F "" cfg n.env)
      else (ok tt, n)

  -- `return nil, err`
  unfoldable pub and_then : Outcome × Node W → (Node W → Outcome × Node W) → Outcome × Node W
  and_then (err e, n) next = (err e, n)
  and_then (ok u, n) next = next n

  unfoldable pub recover_devices : String → Dict DeviceConfig → Node W → Outcome × Node W
  unfolding recover_one
  recover_devices pod_uid [] n = (ok tt, n)
  recover_devices pod_uid ((name, cfg) ∷ rest) n =
      and_then (recover_one pod_uid name cfg n) (recover_devices pod_uid rest)

  unfoldable pub recover_pods : List String → Dict PodConfig → Node W → Outcome × Node W
  recover_pods active [] n = (ok tt, n)
  recover_pods active ((uid, pod) ∷ pods) n =
      and_then (if contains active uid then (ok tt, n) else recover_devices uid (devices_of pod) n)
        (recover_pods active pods)

  unfoldable pub after_recover : Outcome × Node W → Outcome × Node W
  after_recover (err e, n) = (err e, n)
  after_recover (ok u, n) = (ok tt, record n { env = V.publish n.env })

  unfoldable pub synchronize : List Sandbox → Node W → Outcome × Node W
  unfolding after_recover
  synchronize pods n =
      let (active, n') = note_active pods n in
      after_recover (recover_pods active n'.store.state.pods n')
