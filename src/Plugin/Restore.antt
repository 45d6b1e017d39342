-- ===== src/Plugin/Restore.antt =====
-- internal/driver/hostdevice.go: `restorePodHostDevices` and `restoreClaimHostDevices`, which
-- bring every host device back that a pod or a claim has.
use dra_linux_networks.Prelude.{
  String, Bool, true, false, Option, none, some, List, [], ◌∷◌, ◌++◌, Result, ok, err, ◌==◌, ◌&&◌,
  if◌then◌else◌,
}
use dra_linux_networks.Prelude.Dict.{Dict}
use dra_linux_networks.Driver.{DeviceConfig, PodConfig}
use dra_linux_networks.Store.{Store, Outcome, get_pod, devices_of}
use dra_linux_networks.Host.Kernel.{Netlink, Formats}
use dra_linux_networks.Host.Moves.{Moved, restore_host_device}
use dra_linux_networks.Plugin.Types.{
  KubePod, Sandbox, Services, Node, PluginError, from_kernel, stored, restore_failed,
  network_namespace, network_restored_message, is_away, keep_device, quietly,
}

module _ {W : Type 0} (N : Netlink W) (F : Formats) (V : Services W) where
  -- What is told of a device that is back: to its claim, and to the pod if it is still that pod.
  unfoldable pub tell_claim : DeviceConfig → Node W → Node W
  tell_claim cfg n =
      quietly V
        (V.set_device_status cfg false "NetworkRestored" (network_restored_message cfg)
          cfg.hardware_address)
        n

  unfoldable pub tell_pod : String → DeviceConfig → Result String KubePod × W → Node W → Node W
  tell_pod pod_uid cfg (err e, env) n = record n { env = env }
  tell_pod pod_uid cfg (ok pod, env) n =
      if pod.uid == pod_uid
      then quietly V
          (V.emit_pod_event pod "Normal" "LinuxHostDeviceRestored" "RestoreHostDevice"
            (network_restored_message cfg) cfg.claim)
          (quietly V (V.set_pod_status pod cfg) (record n { env = env }))
      else record n { env = env }

  -- The method's pod; a claim's restore tells no pod.
  unfoldable pub told : Option Sandbox → String → DeviceConfig → Node W → Node W
  told none pod_uid cfg n = tell_claim cfg n
  told (some pod) pod_uid cfg n =
      let n' = tell_claim cfg n in tell_pod pod_uid cfg (V.get_pod pod.namespace pod.name n'.env) n'

  unfoldable pub after_keep :
      Option Sandbox → String → DeviceConfig → Outcome × Node W → List PluginError × Node W
  after_keep pod pod_uid cfg (err e, n) = (stored e ∷ [], n)
  after_keep pod pod_uid cfg (ok u, n) = ([], told pod pod_uid cfg n)

  unfoldable pub after_restore :
      Option Sandbox → String → String → Store → Moved W → List PluginError × Node W
  after_restore pod pod_uid name store (err e, cfg, env) =
      (restore_failed cfg.parent_name (from_kernel e) ∷ [], record { store = store; env = env })
  after_restore pod pod_uid name store (ok u, cfg, env) =
      after_keep pod pod_uid cfg
        (keep_device V pod_uid name cfg (record { store = store; env = env }))

  unfoldable pub restore_one :
      Option Sandbox → String → String → String → DeviceConfig → Node W → List PluginError × Node W
  restore_one pod pod_uid ns_path name cfg n =
      after_restore pod pod_uid name n.store (restore_host_device N F ns_path cfg n.env)

  -- The loop over a pod's devices, of those that `wanted` tells.
  unfoldable pub restore_devices :
      (DeviceConfig → Bool)
      → Option Sandbox
      → String
      → String
      → Dict DeviceConfig
      → Node W
      → List PluginError × Node W
  restore_devices wanted pod pod_uid ns_path [] n = ([], n)
  restore_devices wanted pod pod_uid ns_path ((name, cfg) ∷ rest) n =
      let (errors, n') =
        if wanted cfg && is_away cfg then restore_one pod pod_uid ns_path name cfg n else ([], n) in
      let (more, n'') = restore_devices wanted pod pod_uid ns_path rest n' in (errors ++ more, n'')

  -- `d.publish`, whose error is dropped, and `errors.Join`, which is nil for no errors.
  unfoldable pub published : List PluginError × Node W → List PluginError × Node W
  published (errors, n) = (errors, record n { env = V.publish n.env })

  unfoldable pub restore_found_pod : Sandbox → Option PodConfig → Node W → List PluginError × Node W
  restore_found_pod pod none n = ([], n)
  restore_found_pod pod (some podcfg) n =
      let ns_path = network_namespace pod in
      published (
        restore_devices (λ cfg. true) (some pod) pod.uid
          (if ns_path == "" then podcfg.net_ns else ns_path) (devices_of podcfg) n)

  unfoldable pub restore_pod_host_devices : Sandbox → Node W → List PluginError × Node W
  restore_pod_host_devices pod n = restore_found_pod pod (get_pod pod.uid n.store) n

  unfoldable pub stop_pod_sandbox : Sandbox → Node W → List PluginError × Node W
  stop_pod_sandbox = restore_pod_host_devices

  unfoldable pub remove_pod_sandbox : Sandbox → Node W → List PluginError × Node W
  remove_pod_sandbox = restore_pod_host_devices

  -- The outer loop of `restoreClaimHostDevices`.
  unfoldable pub restore_pods : String → Dict PodConfig → Node W → List PluginError × Node W
  restore_pods claim_uid [] n = ([], n)
  restore_pods claim_uid ((pod_uid, podcfg) ∷ rest) n =
      let (errors, n') =
        restore_devices (λ cfg. cfg.claim_uid == claim_uid) none pod_uid podcfg.net_ns
          (devices_of podcfg) n in
      let (more, n'') = restore_pods claim_uid rest n' in (errors ++ more, n'')

  unfoldable pub restore_claim_host_devices : String → Node W → List PluginError × Node W
  restore_claim_host_devices claim_uid n = published (restore_pods claim_uid n.store.state.pods n)
