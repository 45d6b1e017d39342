-- ===== src/Plugin/Kept.antt =====
-- `RunPodSandbox`: what its steps leave in the store.
use dra_linux_networks.Prelude.{
  String, ◌≡◌, refl, sym, ◌∙◌, ap, Result, ok, err, Bool-cases, inl, inr,
}
use dra_linux_networks.Driver.{DeviceConfig}
use dra_linux_networks.Driver.Status.{pod_uses_network_readiness_gate}
use dra_linux_networks.Store.{Store, Outcome, set_device}
use dra_linux_networks.Host.Kernel.{HostError, Netlink, Formats}
use dra_linux_networks.Host.Child.{Links}
use dra_linux_networks.Plugin.Types.{
  KubePod, Services, Node, PluginError, status_failed, pod_status_failed, keep_device, quietly,
}
use dra_linux_networks.Plugin.Run.{
  Ran, attached, answer, asking, then_run, keeping, or_event, report, attach_fails, attach_done,
  set_ready,
}

module _ {W : Type 0} (N : Netlink W) (F : Formats) (L : Links W)
    (pci_address : String → W → String) (describe : HostError → String) (V : Services W) where
  pub then_run-ok :
      (p : Ran W) (next : Node W → Ran W) (n' : Node W)
      → then_run N F L pci_address describe V p next ≡ (ok tt, n')
      → (n : Node W) × (p ≡ (ok tt, n)) × (next n ≡ (ok tt, n'))
  unfolding then_run
  then_run-ok (ok u, n) next n' e = (n, refl, e)
  then_run-ok (err x, n) next n' e = absurd (cc)

  pub answer-store :
      (wrap : PluginError → PluginError) (s : Store) (p : Result String (Unit {0}) × W)
      (n' : Node W)
      → answer N F L pci_address describe V wrap s p ≡ (ok tt, n')
      → n'.store ≡ s
  unfolding answer
  answer-store wrap s (ok u, env) n' e = ap (λ (r : Ran W). r.1.store) (sym e)
  answer-store wrap s (err x, env) n' e = absurd (cc)

  or_event-store :
      (pod : KubePod) (cfg : DeviceConfig) (wrap : PluginError → PluginError) (s : Store)
      (p : Result String (Unit {0}) × W) (n' : Node W)
      → or_event N F L pci_address describe V pod cfg wrap s p ≡ (ok tt, n')
      → n'.store ≡ s
  unfolding or_event
  or_event-store pod cfg wrap s (ok u, env) n' e = ap (λ (r : Ran W). r.1.store) (sym e)
  or_event-store pod cfg wrap s (err x, env) n' e = absurd (cc)

  -- A report leaves the store alone.
  pub report-store :
      (pod : KubePod) (cfg : DeviceConfig) (n n' : Node W)
      → report N F L pci_address describe V pod cfg n ≡ (ok tt, n')
      → n'.store ≡ n.store
  unfolding report quietly
  report-store pod cfg n n' e =
      let (n₁, first, rest) = then_run-ok _ _ n' e in
      let (n₂, second, last) = then_run-ok _ _ n' rest in
      ap (λ (r : Ran W). r.1.store) (sym last)
      ∙ or_event-store pod cfg pod_status_failed n₁.store _ n₂ second
      ∙ or_event-store pod cfg status_failed n.store _ n₁ first

  pub keeping-ok :
      (p : Outcome × Node W) (n' : Node W)
      → keeping N F L pci_address describe V p ≡ (ok tt, n')
      → n' ≡ p.1
  unfolding keeping
  keeping-ok (ok u, n) n' e = ap (λ (r : Ran W). r.1) (sym e)
  keeping-ok (err x, n) n' e = absurd (cc)

  pub kept-store :
      (uid name : String) (cfg : DeviceConfig) (n n' : Node W)
      → keeping N F L pci_address describe V (keep_device V uid name cfg n) ≡ (ok tt, n')
      → n'.store ≡ (set_device (V.faults n.env).0 uid name cfg n.store).1
  unfolding keep_device
  kept-store uid name cfg n n' e = ap (λ (m : Node W). m.store) (keeping-ok _ n' e)

  pub attach_done-store :
      (pod : KubePod) (name : String) (cfg : DeviceConfig) (address : String) (n n' : Node W)
      → attach_done N F L pci_address describe V pod name cfg address n ≡ (ok tt, n')
      → n'.store ≡ (set_device (V.faults n.env).0 pod.uid name (attached cfg address) n.store).1
  unfolding attach_done
  attach_done-store pod name cfg address n n' e =
      let (n₁, kept, told) = then_run-ok _ _ n' e in
      report-store pod (attached cfg address) n₁ n' told
      ∙ kept-store pod.uid name (attached cfg address) n n₁ kept

  pub attach_fails-not_ok :
      (pod : KubePod) (name : String) (cfg : DeviceConfig) (e : HostError) (n n' : Node W)
      → attach_fails N F L pci_address describe V pod name cfg e n ≡ (ok tt, n')
      → ⊥
  unfolding attach_fails
  attach_fails-not_ok pod name cfg e n n' run = cc

  pub set_ready-store :
      (pod : KubePod) (n n' : Node W)
      → set_ready N F L pci_address describe V pod n ≡ (ok tt, n')
      → n'.store ≡ n.store
  unfolding set_ready asking
  set_ready-store pod n n' e =
      elim (Bool-cases (pod_uses_network_readiness_gate pod.readiness_gates)) [
        | inl gated ↦ answer-store _ n.store _ n' (rw gated at e)
        | inr free ↦
            let same : ◌≡◌ {A = Ran W} (ok tt, n) (ok tt, n') = rw free at e in
            ap (λ (r : Ran W). r.1.store) (sym same)
      ]
