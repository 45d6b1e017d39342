-- ===== src/Plugin/Claims.antt =====
-- internal/driver/driver.go and dpdk.go: the steps of `prepareClaim` that change the state, and its
-- loop over the allocated devices.
use dra_linux_networks.Prelude.{
  ℕ, String, Bool, true, false, not, ◌&&◌, ◌||◌, Option, none, some, List, [], ◌∷◌, Result, ok, err,
  ◌==◌, if◌then◌else◌, is_empty,
}
use dra_linux_networks.Prelude.Dict.{lookup}
use dra_linux_networks.Kube.{Accessors, Server}
use dra_linux_networks.Config.{InterfaceConfig}
use dra_linux_networks.Driver.{DpdkDeviceState, NetworkConfig, DeviceConfig}
use dra_linux_networks.Driver.Naming.{devices_or_none}
use dra_linux_networks.Driver.Dpdk.{validate_dpdk_config}
use dra_linux_networks.Driver.Status.{pod_uses_network_readiness_gate}
use dra_linux_networks.Store.{Store, Outcome, get_pod, set_device}
use dra_linux_networks.Ipam.Apply.{ApplyError}
use dra_linux_networks.Ipam.Claim.{IpamState, apply_ipam}
use dra_linux_networks.Host.Kernel.{Netlink, Formats}
use dra_linux_networks.Plugin.Types.{
  KubePod, Services, network_prepared_message, dpdk_prepared_message,
}
use dra_linux_networks.Plugin.Prepare.{
  Consumer, Allocated, ClaimObject, Device, PrepareError, many_consumers, unsupported_consumer,
  unknown_device, no_pod, report_failed, gate_failed, cdi_failed, not_dpdk, no_address, not_kept,
  config_for_request, config_or_zero, requested_config, existing_host,
}
use dra_linux_networks.Plugin.Inspect.{Inspect, Asked, host_part}
use dra_linux_networks.Plugin.Desk.{
  Desk, Setup, claim_reference_of, pod_reference_of, key_of, prepared_config, fresh_config,
  dpdk_config, Step,
}

module _ {W : Type 0} (N : Netlink W) (F : Formats) (V : Services W) (I : Inspect W) (A : Accessors)
    (S : Server) (sha256 : String → List ℕ) (D : Setup) where
  unfoldable pub then_step : {X Y : Type 0} → Step S W X → (X → Desk S W → Step S W Y) → Step S W Y
  then_step (ok x, desk) next = next x desk
  then_step (err e, desk) next = (err e, desk)

  abbrev with_env : Desk S W → W → Desk S W
  with_env desk env = record desk { env = env }

  -- A call of a service.
  unfoldable pub reply :
      (String → PrepareError) → Desk S W → Result String (Unit {0}) × W → Step S W (Unit {0})
  reply wrap desk (ok u, env) = (ok tt, with_env desk env)
  reply wrap desk (err e, env) = (err (wrap e), with_env desk env)

  unfoldable pub kept_in : Desk S W → W → Outcome × Store → Step S W (Unit {0})
  kept_in desk env (ok u, s) = (ok tt, record { ipam = record desk.ipam { store = s }; env = env })
  kept_in desk env (err e, s) =
      (err (not_kept e), record { ipam = record desk.ipam { store = s }; env = env })

  -- `d.store.SetDevice`
  unfoldable pub keep : String → String → DeviceConfig → Desk S W → Step S W (Unit {0})
  keep uid key cfg desk =
      let (io, env) = V.faults desk.env in
      kept_in desk env (set_device io uid key cfg desk.ipam.store)

  unfoldable pub asked : {X : Type 0} → Desk S W → Asked W X → Step S W X
  asked desk (r, env) = (r, with_env desk env)

  unfoldable pub addressed_by :
      W → Result ApplyError NetworkConfig × IpamState S → Step S W NetworkConfig
  addressed_by env (ok net, ipam) = (ok net, record { ipam = ipam; env = env })
  addressed_by env (err e, ipam) = (err (no_address e), record { ipam = ipam; env = env })

  -- `d.applyIPAM`
  unfoldable pub take_address :
      ClaimObject → KubePod → NetworkConfig → Desk S W → Step S W NetworkConfig
  take_address claim pod net desk =
      let (io, env) = V.faults desk.env in
      addressed_by env (
        apply_ipam A S sha256 D.node_name D.pools io (claim_reference_of claim)
          (pod_reference_of pod) net desk.ipam)

  -- The event of a prepared device, whose error is dropped.
  unfoldable pub note :
      KubePod → DeviceConfig → String → String → String → Desk S W → Step S W (Unit {0})
  note pod cfg reason action message desk = (
    ok tt,
    with_env desk (V.emit_pod_event pod "Normal" reason action message cfg.claim desk.env).1,
  )

  unfoldable pub report_network : KubePod → DeviceConfig → Desk S W → Step S W (Unit {0})
  report_network pod cfg desk =
      let message = network_prepared_message cfg in
      then_step
        (reply report_failed desk
          (V.set_device_status cfg false "NetworkPrepared" message "" desk.env))
        (λ u. note pod cfg "LinuxNetworkPrepared" "PrepareNetwork" message)

  unfoldable pub report_dpdk : KubePod → DeviceConfig → Desk S W → Step S W (Unit {0})
  report_dpdk pod cfg desk =
      let message = dpdk_prepared_message cfg in
      then_step
        (reply report_failed desk (V.set_device_status cfg true "DPDKPrepared" message "" desk.env))
        (λ u desk.
          then_step (reply report_failed desk (V.set_pod_status pod cfg desk.env))
            (λ u. note pod cfg "LinuxDPDKDevicePrepared" "PrepareDPDKDevice" message))

  -- The state of a host device, where the claim takes one.
  unfoldable pub complete :
      ClaimObject
      → Consumer
      → Allocated
      → InterfaceConfig
      → NetworkConfig
      → Desk S W
      → Step S W DeviceConfig
  complete claim reserved a ifc net desk =
      let cfg = fresh_config claim a ifc (I.identity ifc.name desk.env) net in
      if net.type == "host-device"
      then asked desk (
          host_part N I F ifc cfg
            (existing_host claim.uid
              (lookup (key_of claim a) (devices_or_none (get_pod reserved.uid desk.ipam.store))))
            desk.env)
      else (ok cfg, desk)

  unfoldable pub prepared_device : Allocated → List String → Device
  prepared_device a cdi = record {
    requests = a.request ∷ [];
    pool_name = D.node_name;
    device_name = a.device;
    cdi_device_ids = cdi;
  }

  unfoldable pub configured :
      ClaimObject
      → Consumer
      → KubePod
      → Allocated
      → InterfaceConfig
      → Result PrepareError NetworkConfig
      → Desk S W
      → Step S W Device
  configured claim reserved pod a ifc (err e) desk = (err e, desk)
  configured claim reserved pod a ifc (ok net) desk =
      then_step (take_address claim pod net desk) (λ net desk.
        then_step (complete claim reserved a ifc net desk) (λ cfg desk.
          then_step (keep reserved.uid (key_of claim a) (prepared_config cfg) desk) (λ u desk.
            then_step (report_network pod (prepared_config cfg) desk)
              (λ u desk. (ok (prepared_device a []), desk)))))

  unfoldable pub prepare_network :
      ClaimObject → Consumer → KubePod → Allocated → InterfaceConfig → Desk S W → Step S W Device
  prepare_network claim reserved pod a ifc desk =
      configured claim reserved pod a ifc
        (requested_config D.decode D.driver_name ifc desk.ipam.store pod claim a (key_of claim a))
        desk

  -- A device that is not kept has no specification.
  unfoldable pub or_remove : String → Step S W (Unit {0}) → Step S W (Unit {0})
  or_remove path (ok u, desk) = (ok tt, desk)
  or_remove path (err e, desk) = (err e, with_env desk (I.remove_file path desk.env))

  unfoldable pub specified :
      ClaimObject
      → Consumer
      → KubePod
      → Allocated
      → DpdkDeviceState
      → Desk S W
      → Result String (String × String) × W
      → Step S W Device
  specified claim reserved pod a state desk (err e, env) = (err (cdi_failed e), with_env desk env)
  specified claim reserved pod a state desk (ok (id, path), env) =
      let cfg = dpdk_config claim a (record state { cdi_device_id = id; cdi_spec_path = path }) in
      then_step (or_remove path (keep reserved.uid (key_of claim a) cfg (with_env desk env)))
        (λ u desk.
          then_step (report_dpdk pod cfg desk) (λ u desk. (ok (prepared_device a (id ∷ [])), desk)))

  unfoldable pub prepare_dpdk_device :
      ClaimObject → Consumer → KubePod → Allocated → DpdkDeviceState → Desk S W → Step S W Device
  prepare_dpdk_device claim reserved pod a state desk =
      elim (config_for_request D.decode D.driver_name a.request claim.config) [
        | err e ↦ (err e, desk)
        | ok user ↦ elim (validate_dpdk_config (config_or_zero user)) [
          | err e ↦ (err (not_dpdk e), desk)
          | ok u ↦
              specified claim reserved pod a state desk
                (I.write_cdi_spec claim.uid a.device state desk.env)
        ]
      ]

  unfoldable pub prepare_kind :
      ClaimObject
      → Consumer
      → KubePod
      → Allocated
      → Option DpdkDeviceState
      → Option InterfaceConfig
      → Desk S W
      → Step S W Device
  prepare_kind claim reserved pod a (some state) ifc desk =
      prepare_dpdk_device claim reserved pod a state desk
  prepare_kind claim reserved pod a none (some ifc) desk =
      prepare_network claim reserved pod a ifc desk
  prepare_kind claim reserved pod a none none desk = (err (unknown_device a.device), desk)

  -- A round of the loop: a device of another driver is passed over; `go` is the rest of the loop.
  unfoldable pub prepare_round :
      ClaimObject
      → Consumer
      → KubePod
      → Allocated
      → (Desk S W → Step S W (List Device))
      → Bool
      → Desk S W
      → Step S W (List Device)
  prepare_round claim reserved pod a go false desk = go desk
  prepare_round claim reserved pod a go true desk =
      then_step
        (prepare_kind claim reserved pod a (lookup a.device D.dpdk_devices)
          (lookup a.device D.interfaces) desk)
        (λ device desk. then_step (go desk) (λ devices desk. (ok (device ∷ devices), desk)))

  -- The loop over the allocated devices.
  unfoldable pub prepare_results :
      ClaimObject → Consumer → KubePod → List Allocated → Desk S W → Step S W (List Device)
  prepare_results claim reserved pod [] desk = (ok [], desk)
  prepare_results claim reserved pod (a ∷ rest) desk =
      prepare_round claim reserved pod a (prepare_results claim reserved pod rest)
        (a.driver == D.driver_name) desk

  unfoldable pub gated : KubePod → List Device → Desk S W → Step S W (List Device)
  gated pod devices desk =
      if not (is_empty devices) && pod_uses_network_readiness_gate pod.readiness_gates
      then then_step
          (reply gate_failed desk (
            V.set_pod_condition pod false "NetworkPrepared"
              "Secondary network resources are prepared; waiting for attachment" desk.env))
          (λ u desk. (ok devices, desk))
      else (ok devices, desk)

  unfoldable pub for_pod :
      ClaimObject → Consumer → Desk S W → Result String KubePod × W → Step S W (List Device)
  for_pod claim reserved desk (err e, env) = (err (no_pod e), with_env desk env)
  for_pod claim reserved desk (ok pod, env) =
      then_step (prepare_results claim reserved pod claim.results (with_env desk env)) (gated pod)

  unfoldable pub prepare_for : ClaimObject → List Consumer → Desk S W → Step S W (List Device)
  prepare_for claim [] desk = (ok [], desk)
  prepare_for claim (first ∷ second ∷ rest) desk = (err many_consumers, desk)
  prepare_for claim (reserved ∷ []) desk =
      if not (reserved.api_group == "") || not (reserved.resource == "pods")
      then (err (unsupported_consumer reserved.api_group reserved.resource), desk)
      else for_pod claim reserved desk (V.get_pod claim.namespace reserved.name desk.env)

  unfoldable pub prepare_claim : ClaimObject → Desk S W → Step S W (List Device)
  prepare_claim claim desk = prepare_for claim claim.reserved_for desk
