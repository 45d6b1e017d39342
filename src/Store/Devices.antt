-- ===== src/Store/Devices.antt =====
-- `SetDevice`, `SetNetNS`, `DeletePod` and `GetPod`: what a pod's record holds after each.
use dra_linux_networks.Prelude.{
  String, ◌≡◌, refl, ap, ◌∙◌, arith, ◌==◌, eq_iff, some, none, [], if◌then◌else◌, inl, inr, Option,
  Bool-cases, subst,
}
use dra_linux_networks.Prelude.Dict.{Dict, lookup, insert, lookup-insert, lookup-remove}
use dra_linux_networks.Driver.{DeviceConfig, PodConfig}
use dra_linux_networks.Store.{
  Store, Faults, set_device, set_net_ns, delete_pod, get_pod, persist_locked, put_device,
  pod_or_zero, with_pods, devices_of,
}
use dra_linux_networks.Store.Reserve.{persist-state}

-- `s.Pods[uid].Devices[name]`
abbrev pub device_at : String → String → Store → Option DeviceConfig
device_at uid name s = lookup name (devices_of (pod_or_zero (get_pod uid s)))

get_pod-persist :
    (io : Faults) (uid : String) (s : Store) → get_pod uid (persist_locked io s).1 ≡ get_pod uid s
unfolding get_pod
get_pod-persist io uid s = ap (λ t. lookup uid t.pods) (persist-state io s)

put_device-lookup :
    (uid name other : String) (cfg : DeviceConfig) (pod : PodConfig)
    (m : Option (Dict DeviceConfig))
    → lookup other (devices_of (put_device uid name cfg pod m))
      ≡ (if name == other then some cfg else lookup other (elim m [ none ↦ [] | some d ↦ d ]))
unfolding put_device
put_device-lookup uid name other cfg pod none = lookup-insert name other cfg []
put_device-lookup uid name other cfg pod (some m) = lookup-insert name other cfg m

module _ (io : Faults) (uid : String) (s : Store) where
  get_pod-put :
      (pod : PodConfig) (j : String)
      → get_pod j (persist_locked io (with_pods (insert uid pod s.state.pods) s)).1
        ≡ (if uid == j then some pod else get_pod j s)
  unfolding get_pod
  get_pod-put pod j = get_pod-persist io j _ ∙ lookup-insert uid j pod s.state.pods

  -- After `SetDevice`, whatever the file system answers, the pod has the device under its key,
  -- and every other device of this pod and of the others is the one that was there.
  pub device_at-set_device :
      (name : String) (cfg : DeviceConfig) (j other : String)
      → device_at j other (set_device io uid name cfg s).1 ≡ (
          if uid == j
          then if name == other then some cfg else device_at j other s
          else device_at j other s)
  unfolding set_device get_pod
  device_at-set_device name cfg j other =
      let pod = pod_or_zero (lookup uid s.state.pods) in
      let new = put_device uid name cfg pod pod.devices in
      let at_j = ap (λ o. lookup other (devices_of (pod_or_zero o))) (get_pod-put new j) in
      elim (Bool-cases (uid == j)) [
        | inl same ↦
            let there =
              subst
                (λ i.
                  lookup other (devices_of new)
                  ≡ (if name == other then some cfg else device_at i other s))
                ((eq_iff uid j).0 same) (put_device-lookup uid name other cfg pod pod.devices) in
            rw same (at_j ∙ rw same there)
        | inr differs ↦ rw differs (at_j ∙ rw differs refl)
      ]

  -- `SetNetNS` records the namespace and keeps the pod's devices.
  pub set_net_ns_lem :
      (netns : String)
      → (pod : PodConfig) × (get_pod uid (set_net_ns io uid netns s).1 ≡ some pod)
        × (pod.net_ns ≡ netns)
        × (pod.devices ≡ (pod_or_zero (get_pod uid s)).devices)
  unfolding set_net_ns get_pod
  set_net_ns_lem netns = (
    record (pod_or_zero (lookup uid s.state.pods)) { pod_uid = uid; net_ns = netns },
    get_pod-put _ uid ∙ ground (arith, eq_iff uid uid),
    refl,
    refl,
  )

  -- `DeletePod` forgets the pod and no other.
  pub get_pod-delete_pod :
      (j : String) → get_pod j (delete_pod io uid s).1 ≡ (if uid == j then none else get_pod j s)
  unfolding delete_pod get_pod
  get_pod-delete_pod j = get_pod-persist io j _ ∙ lookup-remove uid j s.state.pods
