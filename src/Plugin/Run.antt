-- ===== src/Plugin/Run.antt =====
-- internal/driver/driver.go: `RunPodSandbox`, which puts a pod's devices into its namespace.
use dra_linux_networks.Prelude.{
  String, true, false, Option, none, some, [], ◌∷◌, Result, ok, err, ◌==◌, ◌<>◌, if◌then◌else◌,
}
use dra_linux_networks.Prelude.Dict.{Dict, lookup, insert}
use dra_linux_networks.Driver.{DeviceConfig, PodConfig, HostDeviceState}
use dra_linux_networks.Driver.Status.{pod_uses_network_readiness_gate, network_status_message}
use dra_linux_networks.Store.{Store, Outcome, get_pod, devices_of, pod_or_zero}
use dra_linux_networks.Host.Kernel.{HostError, Netlink, Formats}
use dra_linux_networks.Host.Moves.{Moved, attach_host_device}
use dra_linux_networks.Host.Child.{Links, attach_link}
use dra_linux_networks.Plugin.Types.{
  KubePod, Sandbox, Services, Node, PluginError, from_kernel, stored, service, attach_failed,
  status_failed, pod_status_failed, readiness_failed, get_pod_failed, no_namespace, uid_changed,
  network_namespace, dpdk_injected_message, keep_device, keep_net_ns, quietly,
}

abbrev pub Ran : Type 0 → Type 0
Ran W = Result PluginError (Unit {0}) × Node W

-- `HostDevice` is a pointer that the store's device shares, so that what an attachment that fails
-- has done to it shows in the store, which is not written.
unfoldable pub shared : String → String → Option HostDeviceState → Store → Store
shared uid name host s =
    let pod = pod_or_zero (lookup uid s.state.pods) in
    elim (lookup name (devices_of pod)) [
      | none ↦ s
      | some cfg ↦ record s {
        state = record s.state {
          pods =
              insert uid
                (record pod {
                  devices = some (insert name (record cfg { host_device = host }) (devices_of pod));
                })
                s.state.pods;
        };
      }
    ]

abbrev pub injected : DeviceConfig → DeviceConfig
injected cfg = record cfg { lifecycle_state = "Injected" }

abbrev pub attached : DeviceConfig → String → DeviceConfig
attached cfg address = record cfg {
  attached_if = cfg.network.interface_name;
  hardware_address = address;
  lifecycle_state = "Attached";
}

-- `describe` gives the text of an error.
module _ {W : Type 0} (N : Netlink W) (F : Formats) (L : Links W)
    (pci_address : String → W → String) (describe : HostError → String) (V : Services W) where
  -- A call of a service whose error is wrapped and given up with.
  unfoldable pub answer : (PluginError → PluginError) → Store → Result String (Unit {0}) × W → Ran W
  answer wrap s (ok u, env) = (ok tt, record { store = s; env = env })
  answer wrap s (err e, env) = (err (wrap (service e)), record { store = s; env = env })

  unfoldable pub asking :
      (PluginError → PluginError) → (W → Result String (Unit {0}) × W) → Node W → Ran W
  asking wrap call n = answer wrap n.store (call n.env)

  unfoldable pub then_run : Ran W → (Node W → Ran W) → Ran W
  then_run (ok u, n) next = next n
  then_run (err e, n) next = (err e, n)

  unfoldable pub keeping : Outcome × Node W → Ran W
  keeping (ok u, n) = (ok tt, n)
  keeping (err e, n) = (err (stored e), n)

  unfoldable pub inject : KubePod → String → DeviceConfig → Node W → Ran W
  inject pod name cfg n =
      let cfg' = injected cfg in
      then_run (keeping (keep_device V pod.uid name cfg' n)) (λ n.
        then_run
          (asking status_failed
            (V.set_device_status cfg' true "DPDKInjected" (dpdk_injected_message cfg') "") n)
          (asking pod_status_failed (V.set_pod_status pod cfg')))

  -- An error of a report is also an event of the pod.
  unfoldable pub or_event :
      KubePod
      → DeviceConfig
      → (PluginError → PluginError)
      → Store
      → Result String (Unit {0}) × W
      → Ran W
  or_event pod cfg wrap s (ok u, env) = (ok tt, record { store = s; env = env })
  or_event pod cfg wrap s (err e, env) = (
    err (wrap (service e)),
    quietly V
        (V.emit_pod_event pod "Warning" "LinuxNetworkStatusUpdateFailed" "ReportNetworkStatus" e
          cfg.claim)
        (record { store = s; env = env }),
  )

  unfoldable pub report : KubePod → DeviceConfig → Node W → Ran W
  report pod cfg n =
      let message = network_status_message cfg in
      then_run
        (or_event pod cfg status_failed n.store
          (V.set_device_status cfg true "NetworkAttached" message cfg.hardware_address n.env))
        (λ n.
          then_run (or_event pod cfg pod_status_failed n.store (V.set_pod_status pod cfg n.env))
            (λ n. (
              ok tt,
              quietly V
                  (V.emit_pod_event pod "Normal" "LinuxNetworkAttached" "AttachNetwork" message
                    cfg.claim)
                  n,
            )))

  unfoldable pub attach_fails : KubePod → String → DeviceConfig → HostError → Node W → Ran W
  attach_fails pod name cfg e n =
      let message = "failed to attach " <> (cfg.network.interface_name <> (": " <> describe e)) in
      let n₁ = quietly V (V.set_device_status cfg false "NetworkAttachFailed" message "") n in
      let n₂ =
        if pod_uses_network_readiness_gate pod.readiness_gates
        then quietly V (V.set_pod_condition pod false "NetworkAttachFailed" message) n₁
        else n₁ in
      (
        err (attach_failed name (from_kernel e)),
        quietly V
            (V.emit_pod_event pod "Warning" "LinuxNetworkAttachFailed" "AttachNetwork" message
              cfg.claim)
            n₂,
      )

  unfoldable pub attach_done : KubePod → String → DeviceConfig → String → Node W → Ran W
  attach_done pod name cfg address n =
      let cfg' = attached cfg address in
      then_run (keeping (keep_device V pod.uid name cfg' n)) (report pod cfg')

  unfoldable pub after_host : KubePod → String → Store → Moved W → Ran W
  after_host pod name s (ok u, cfg, env) =
      attach_done pod name cfg cfg.hardware_address (record { store = s; env = env })
  after_host pod name s (err e, cfg, env) =
      attach_fails pod name cfg e
        (record { store = shared pod.uid name cfg.host_device s; env = env })

  unfoldable pub after_link :
      KubePod → String → DeviceConfig → Store → Result HostError String × W → Ran W
  after_link pod name cfg s (ok address, env) =
      attach_done pod name cfg address (record { store = s; env = env })
  after_link pod name cfg s (err e, env) =
      attach_fails pod name cfg e (record { store = s; env = env })

  unfoldable pub attach : KubePod → String → String → DeviceConfig → Node W → Ran W
  attach pod ns_path name cfg n =
      if cfg.network.type == "host-device"
      then after_host pod name n.store (attach_host_device N F pci_address ns_path cfg n.env)
      else after_link pod name cfg n.store (attach_link N F L ns_path cfg n.env)

  -- The loop's body.
  unfoldable pub run_device : KubePod → String → String → DeviceConfig → Node W → Ran W
  run_device pod ns_path name cfg n =
      if cfg.network.type == "dpdk"
      then inject pod name cfg n
      else if cfg.attached_if == ""
      then attach pod ns_path name cfg n
      else report pod cfg n

  unfoldable pub run_devices : KubePod → String → Dict DeviceConfig → Node W → Ran W
  run_devices pod ns_path [] n = (ok tt, n)
  run_devices pod ns_path ((name, cfg) ∷ rest) n =
      then_run (run_device pod ns_path name cfg n) (run_devices pod ns_path rest)

  unfoldable pub set_ready : KubePod → Node W → Ran W
  set_ready pod n =
      if pod_uses_network_readiness_gate pod.readiness_gates
      then asking readiness_failed
          (V.set_pod_condition pod true "NetworkAttached"
            "All requested secondary networks are attached")
          n
      else (ok tt, n)

  unfoldable pub after_pod :
      Sandbox → String → Dict DeviceConfig → Store → Result String KubePod × W → Ran W
  after_pod pod ns_path devices s (err e, env) =
      (err (get_pod_failed (service e)), record { store = s; env = env })
  after_pod pod ns_path devices s (ok kube, env) =
      let n : Node W = record { store = s; env = env } in
      if kube.uid == pod.uid
      then then_run (run_devices kube ns_path devices n) (set_ready kube)
      else (err (uid_changed pod.namespace pod.name), n)

  unfoldable pub run_found : Sandbox → Option PodConfig → Node W → Ran W
  run_found pod none n = (ok tt, n)
  run_found pod (some podcfg) n =
      let ns_path = network_namespace pod in
      if ns_path == ""
      then (err (no_namespace pod.namespace pod.name), n)
      else then_run (keeping (keep_net_ns V pod.uid ns_path n)) (λ n.
        after_pod pod ns_path (devices_of podcfg) n.store (V.get_pod pod.namespace pod.name n.env))

  unfoldable pub run_pod_sandbox : Sandbox → Node W → Ran W
  run_pod_sandbox pod n = run_found pod (get_pod pod.uid n.store) n
