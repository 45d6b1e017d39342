-- ===== src/Plugin/Restored.antt =====
-- What `restorePodHostDevices` and `restoreClaimHostDevices` leave when they report no error.
use dra_linux_networks.Prelude.{
  String, ◌≡◌, ◌≢◌, refl, sym, ◌∙◌, ap, subst, Bool, true, false, ◌&&◌, Option, none, some, List,
  [], ◌∷◌, ◌++◌, Result, ok, err, ◌==◌, eq_iff, eq_refl, arith, Bool-cases, Option-cases, inl, inr,
  if◌then◌else◌,
}
use dra_linux_networks.Prelude.Dict.{Dict, lookup}
use dra_linux_networks.Driver.{DeviceConfig, PodConfig}
use dra_linux_networks.Store.{Store, Faults, Outcome, get_pod, set_device, devices_of, pod_or_zero}
use dra_linux_networks.Store.Devices.{device_at, device_at-set_device}
use dra_linux_networks.Host.Kernel.{Netlink, Formats}
use dra_linux_networks.Host.Moves.{Moved, restore_host_device}
use dra_linux_networks.Host.Moves.Again.{restore_host_device-marks}
use dra_linux_networks.Plugin.Types.{
  KubePod, Sandbox, Services, Node, PluginError, is_away, has_away, keep_device, quietly,
  network_namespace,
}
use dra_linux_networks.Plugin.Pending.{Left, Left-skip, Left-set_device, Left-nil}
use dra_linux_networks.Plugin.Restore.{
  tell_claim, tell_pod, told, after_keep, after_restore, restore_one, restore_devices, published,
  restore_found_pod, restore_pod_host_devices, restore_pods, restore_claim_host_devices,
}

append-nil : {A : Type 0} (xs ys : List A) → xs ++ ys ≡ [] → (xs ≡ []) × (ys ≡ [])
append-nil [] ys e = (refl, e)
append-nil (x ∷ xs) ys e = absurd (cc)

module _ {W : Type 0} (N : Netlink W) (F : Formats) (V : Services W) where
  tell_pod-store :
      (uid : String) (cfg : DeviceConfig) (p : Result String KubePod × W) (n : Node W)
      → (tell_pod N F V uid cfg p n).store ≡ n.store
  unfolding tell_pod quietly
  tell_pod-store uid cfg (err e, env) n = refl
  tell_pod-store uid cfg (ok pod, env) n = elim (Bool-cases (pod.uid == uid)) [
    | inl same ↦ rw same refl
    | inr other ↦ rw other refl
  ]

  -- What is told of a device does not touch the store.
  told-store :
      (pod : Option Sandbox) (uid : String) (cfg : DeviceConfig) (n : Node W)
      → (told N F V pod uid cfg n).store ≡ n.store
  unfolding told tell_claim quietly
  told-store none uid cfg n = refl
  told-store (some pod) uid cfg n =
      let n' = tell_claim N F V cfg n in
      tell_pod-store uid cfg (V.get_pod pod.namespace pod.name n'.env) n'

  after_keep-store :
      (pod : Option Sandbox) (uid : String) (cfg : DeviceConfig) (p : Outcome × Node W)
      → (after_keep N F V pod uid cfg p).1.store ≡ p.1.store
  unfolding after_keep
  after_keep-store pod uid cfg (err e, n) = refl
  after_keep-store pod uid cfg (ok u, n) = told-store pod uid cfg n

  -- A restore of one device without an error writes a device that is back.
  after_restore-writes :
      (pod : Option Sandbox) (uid name : String) (s : Store) (m : Moved W)
      → ((c : DeviceConfig) (w : W) → m ≡ (ok tt, c, w) → has_away c.host_device ≡ false)
      → (after_restore N F V pod uid name s m).0 ≡ []
      → (io : Faults) × (c : DeviceConfig) × ((after_restore N F V pod uid name s m).1.store
          ≡ (set_device io uid name c s).1)
        × (has_away c.host_device ≡ false)
  unfolding after_restore keep_device
  after_restore-writes pod uid name s (err e, c, w) back none_left = absurd (cc)
  after_restore-writes pod uid name s (ok u, c, w) back none_left =
      ((V.faults w).0, c, after_keep-store pod uid c _, back c w refl)

  restore_one-writes :
      (pod : Option Sandbox) (uid ns_path name : String) (cfg : DeviceConfig) (n : Node W)
      → is_away cfg ≡ true
      → (restore_one N F V pod uid ns_path name cfg n).0 ≡ []
      → (io : Faults) × (c : DeviceConfig) × ((restore_one N F V pod uid ns_path name cfg n).1.store
          ≡ (set_device io uid name c n.store).1)
        × (has_away c.host_device ≡ false)
  unfolding restore_one
  restore_one-writes pod uid ns_path name cfg n away none_left =
      after_restore-writes pod uid name n.store (restore_host_device N F ns_path cfg n.env)
        (λ c w run. elim (Option-cases cfg.host_device) [
          | inl missing ↦ absurd (ground (arith))
          | inr (h, has_host) ↦
              let marked : h.restored ≡ false = ground (arith) in
              ap (λ (d : DeviceConfig). has_away d.host_device)
                (restore_host_device-marks N F ns_path cfg h n.env c w has_host marked run)
        ])
        none_left

  -- The device is away, and the method's loop is about it.
  abbrev is_wanted : (DeviceConfig → Bool) → DeviceConfig → Bool
  is_wanted wanted cfg = wanted cfg && is_away cfg

  restore_devices-Left :
      (wanted : DeviceConfig → Bool) (pod : Option Sandbox) (uid ns_path : String)
      (entries : Dict DeviceConfig) (n : Node W)
      → Left (is_wanted wanted) uid entries n.store
      → (restore_devices N F V wanted pod uid ns_path entries n).0 ≡ []
      → Left
          (is_wanted wanted)
          uid
          []
          (restore_devices N F V wanted pod uid ns_path entries n).1.store
  unfolding restore_devices
  restore_devices-Left wanted pod uid ns_path [] n left none_left = left
  restore_devices-Left wanted pod uid ns_path ((name, cfg) ∷ rest) n left none_left =
      elim (Bool-cases (wanted cfg && is_away cfg)) [
        | inl yes_away ↦ rw yes_away (
            let (first, later) = append-nil _ _ (rw yes_away at none_left) in
            let (io, c, written, back) =
              restore_one-writes pod uid ns_path name cfg n (ground (arith)) first in
            restore_devices-Left wanted pod uid ns_path rest
              (restore_one N F V pod uid ns_path name cfg n).1
              (subst (Left (is_wanted wanted) uid rest) (sym written) (
                Left-set_device (is_wanted wanted) uid io name cfg c rest n.store (ground (arith))
                  left))
              later)
        | inr skip ↦ rw skip (
            restore_devices-Left wanted pod uid ns_path rest n
              (Left-skip (is_wanted wanted) uid name cfg rest n.store skip left)
              (rw skip at none_left))
      ]

  restore_devices_others :
      (wanted : DeviceConfig → Bool) (pod : Option Sandbox) (uid ns_path : String)
      (entries : Dict DeviceConfig) (n : Node W) (other key : String)
      → other ≢ uid
      → (restore_devices N F V wanted pod uid ns_path entries n).0 ≡ []
      → device_at other key (restore_devices N F V wanted pod uid ns_path entries n).1.store
        ≡ device_at other key n.store
  unfolding restore_devices
  restore_devices_others wanted pod uid ns_path [] n other key apart none_left = refl
  restore_devices_others wanted pod uid ns_path ((name, cfg) ∷ rest) n other key apart none_left =
      elim (Bool-cases (wanted cfg && is_away cfg)) [
        | inl yes_away ↦ rw yes_away (
            let (first, later) = append-nil _ _ (rw yes_away at none_left) in
            let (io, c, written, back) =
              restore_one-writes pod uid ns_path name cfg n (ground (arith)) first in
            restore_devices_others wanted pod uid ns_path rest
              (restore_one N F V pod uid ns_path name cfg n).1 other key apart later
            ∙ ap (device_at other key) written
            ∙ device_at-set_device io uid n.store name c other key
            ∙ elsewhere (λ e. apart (sym e)) (device_at other key n.store) _)
        | inr skip ↦ rw skip (
            restore_devices_others wanted pod uid ns_path rest n other key apart
              (rw skip at none_left))
      ]
    where
      elsewhere :
          (uid ≢ other)
          → (then_this else_this : Option DeviceConfig)
          → (if uid == other then else_this else then_this) ≡ then_this
      elsewhere differ a b = ground (arith, eq_iff uid other)

  published-errors : (p : List PluginError × Node W) → (published N F V p).0 ≡ p.0
  unfolding published
  published-errors (errors, n) = refl

  published-store : (p : List PluginError × Node W) → (published N F V p).1.store ≡ p.1.store
  unfolding published
  published-store (errors, n) = refl

  restore_found_pod_done :
      (pod : Sandbox) (found : Option PodConfig) (n : Node W)
      → get_pod pod.uid n.store ≡ found
      → (restore_found_pod N F V pod found n).0 ≡ []
      → Left is_away pod.uid [] (restore_found_pod N F V pod found n).1.store
  unfolding restore_found_pod lookup
  restore_found_pod_done pod none n e none_left =
      λ key c here more. sym (ap (λ o. lookup key (devices_of (pod_or_zero o))) e) ∙ here
  restore_found_pod_done pod (some pc) n e none_left =
      let ns_path = network_namespace pod in
      let run =
        restore_devices N F V (λ cfg. true) (some pod) pod.uid
          (if ns_path == "" then pc.net_ns else ns_path) (devices_of pc) n in
      subst (Left is_away pod.uid []) (sym (published-store run)) (
        restore_devices-Left (λ cfg. true) (some pod) pod.uid
          (if ns_path == "" then pc.net_ns else ns_path) (devices_of pc) n
          (λ key c here more. sym (ap (λ o. lookup key (devices_of (pod_or_zero o))) e) ∙ here)
          (sym (published-errors run) ∙ none_left))

  -- When `restorePodHostDevices` reports no error, no device that the store has for the pod is a
  -- host device that is still away.
  pub restore_pod_host_devices_done :
      (pod : Sandbox) (n : Node W)
      → (restore_pod_host_devices N F V pod n).0 ≡ []
      → (key : String) (c : DeviceConfig)
      → device_at pod.uid key (restore_pod_host_devices N F V pod n).1.store ≡ some c
      → is_away c ≡ false
  unfolding restore_pod_host_devices
  restore_pod_host_devices_done pod n none_left =
      Left-nil is_away pod.uid (restore_pod_host_devices N F V pod n).1.store
        (restore_found_pod_done pod (get_pod pod.uid n.store) n refl none_left)

  -- The pods whose devices are still to be restored.
  abbrev PodsLeft : String → Dict PodConfig → Store → Type 0
  PodsLeft claim pods s =
      (uid key : String) (c : DeviceConfig)
      → device_at uid key s ≡ some c
      → is_wanted (λ cfg. cfg.claim_uid == claim) c ≡ true
      → lookup key (devices_of (pod_or_zero (lookup uid pods))) ≡ some c

  lookup_here :
      (u : String) (pc : PodConfig) (pods : Dict PodConfig) → lookup u ((u, pc) ∷ pods) ≡ some pc
  unfolding lookup
  lookup_here u pc pods = rw (eq_refl u) refl

  lookup_later :
      (u uid : String) (pc : PodConfig) (pods : Dict PodConfig)
      → u == uid ≡ false
      → lookup uid ((u, pc) ∷ pods) ≡ lookup uid pods
  unfolding lookup
  lookup_later u uid pc pods other = rw other refl

  module _ (claim : String) (u : String) (pc : PodConfig) (pods : Dict PodConfig) where
    -- The round of the loop that is about one pod.
    pod_round : Node W → List PluginError × Node W
    pod_round m =
        restore_devices N F V (λ cfg. cfg.claim_uid == claim) none u pc.net_ns (devices_of pc) m

    pod_round-here :
        (m : Node W)
        → PodsLeft claim ((u, pc) ∷ pods) m.store
        → (pod_round m).0 ≡ []
        → Left (is_wanted (λ cfg. cfg.claim_uid == claim)) u [] (pod_round m).1.store
    unfolding pod_round
    pod_round-here m left first =
        restore_devices-Left (λ cfg. cfg.claim_uid == claim) none u pc.net_ns (devices_of pc) m
          (λ key c here more.
            sym (ap (λ o. lookup key (devices_of (pod_or_zero o))) (lookup_here u pc pods))
            ∙ left u key c here more)
          first

    pod_round_left :
        (m : Node W)
        → PodsLeft claim ((u, pc) ∷ pods) m.store
        → (pod_round m).0 ≡ []
        → PodsLeft claim pods (pod_round m).1.store
    unfolding pod_round
    pod_round_left m left first uid key c here more = elim (Bool-cases (u == uid)) [
      | inl same ↦ absurd (
          let there =
            subst (λ i. device_at i key (pod_round m).1.store ≡ some c)
              (sym ((eq_iff u uid).0 same)) here in
          cc (
            Left-nil (is_wanted (λ cfg. cfg.claim_uid == claim)) u (pod_round m).1.store
                (pod_round-here m left first) key c there,
            more,
          ))
      | inr other ↦
          let before =
            sym (
              restore_devices_others (λ cfg. cfg.claim_uid == claim) none u pc.net_ns
                (devices_of pc) m uid key (λ e. cc ((eq_iff u uid).1 (sym e))) first)
            ∙ here in
          sym (ap (λ o. lookup key (devices_of (pod_or_zero o))) (lookup_later u uid pc pods other))
          ∙ left uid key c before more
    ]

  restore_pods_left :
      (claim : String) (pods : Dict PodConfig) (n : Node W)
      → PodsLeft claim pods n.store
      → (restore_pods N F V claim pods n).0 ≡ []
      → PodsLeft claim [] (restore_pods N F V claim pods n).1.store
  unfolding restore_pods pod_round
  restore_pods_left claim [] n left none_left = left
  restore_pods_left claim ((u, pc) ∷ pods) n left none_left =
      let (first, later) = append-nil _ _ none_left in
      restore_pods_left claim pods (pod_round claim u pc pods n).1
        (pod_round_left claim u pc pods n left first) later

  -- When `restoreClaimHostDevices` reports no error, no device that the store has for the claim,
  -- under whatever pod and key, is a host device that is still away.
  pub restore_claim_host_devices_done :
      (claim : String) (n : Node W)
      → (restore_claim_host_devices N F V claim n).0 ≡ []
      → (uid key : String) (c : DeviceConfig)
      → device_at uid key (restore_claim_host_devices N F V claim n).1.store ≡ some c
      → c.claim_uid ≡ claim
      → is_away c ≡ false
  unfolding restore_claim_host_devices lookup get_pod
  restore_claim_host_devices_done claim n none_left uid key c here mine =
      let run = restore_pods N F V claim n.store.state.pods n in
      let left : PodsLeft claim [] run.1.store =
        restore_pods_left claim n.store.state.pods n (λ u k d at more. at)
          (sym (published-errors run) ∙ none_left) in
      let there : device_at uid key run.1.store ≡ some c =
        sym (ap (device_at uid key) (published-store run)) ∙ here in
      elim (Bool-cases (is_away c)) [
        | inl away ↦
            absurd
              (let found = left uid key c there (ground (arith, eq_iff c.claim_uid claim)) in cc)
        | inr done ↦ done
      ]
