-- ===== src/Host/Moves/Attach.antt =====
-- `attachHostDevice` where it fails, and where the device has been in a pod before.
use dra_linux_networks.Prelude.{
  ℕ, String, true, false, Option, some, Result, ok, err, ◌≡◌, refl, sym, ◌∙◌, ap, ◌⊎◌, inl, inr,
}
use dra_linux_networks.Driver.{HostDeviceState, DeviceConfig}
use dra_linux_networks.Host.Kernel.{Formats, HostError, rollback_failed, Netlink}
use dra_linux_networks.Host.Laws.{Settings, IsNetlink, IsThread}
use dra_linux_networks.Host.LinkBack.{Back}
use dra_linux_networks.Host.Moves.{
  Moved, restored_config, restore_host_device, in_net_ns, enter_pod, push_to_pod, rolled_back,
  entered, pushed, attach_of, attach_host_device,
}
use dra_linux_networks.Host.Moves.Here.{attach_host_device-ns}
use dra_linux_networks.Host.Moves.Back.{restore_host_device-Back}
use dra_linux_networks.Host.Moves.Again.{restore_host_device-err, restore_of-idle}

module _ {W : Type 0} (N : Netlink W) (F : Formats) (pci_address : String → W → String) where
  abbrev attach : String → DeviceConfig → W → Moved W
  attach = attach_host_device N F pci_address

  attach-of_host :
      (ns_path : String) (cfg : DeviceConfig) (host : HostDeviceState) (w : W)
      → cfg.host_device ≡ some host
      → attach ns_path cfg w
        ≡ pushed N F pci_address ns_path cfg host (push_to_pod N F pci_address ns_path cfg host w)
  unfolding attach_host_device attach_of
  attach-of_host ns_path cfg host w has_host =
      ap (λ o. attach_of N F pci_address ns_path cfg o w) has_host

  module _ (at : W → ℕ → Option Settings) (holds : W → ℕ → Option String → Type 0)
      (law : IsNetlink N at holds) (ns_path : String) (cfg : DeviceConfig) (host : HostDeviceState)
      (has_host : cfg.host_device ≡ some host) (away : host.restored ≡ false) (ns : W → ℕ)
      (thread : IsThread N ns) where
    -- How a failed attachment can end: back with the link as it was, or with the rollback's error.
    abbrev pub Undone : HostError → DeviceConfig → W → Type 0
    Undone x c w' =
        ((c ≡ restored_config cfg host) × Back N F at holds law host tt w')
        ⊎ ((c ≡ cfg) × ((e : HostError) × (r : HostError) × (x ≡ rollback_failed e r)))

    rolled_back-Undone :
        (e : HostError) (p : Moved W) (x : HostError) (c : DeviceConfig) (w' : W)
        → ((d : DeviceConfig) (v : W)
            → p ≡ (ok tt, d, v)
            → (d ≡ restored_config cfg host) × Back N F at holds law host tt v)
        → ((r : HostError) (d : DeviceConfig) (v : W) → p ≡ (err r, d, v) → d ≡ cfg)
        → rolled_back N F pci_address e p ≡ (err x, c, w')
        → Undone x c w'
    unfolding rolled_back
    rolled_back-Undone e (ok u, d, v) x c w' good bad run =
        let same : ◌≡◌ {A = Moved W} (ok u, d, v) (ok tt, c, w') = cc in inl (good c w' same)
    rolled_back-Undone e (err r, d, v) x c w' good bad run =
        let kept : d ≡ cfg = bad r d v refl in
        let same : d ≡ c = cc in
        let why : rollback_failed e r ≡ x = cc in inr (sym same ∙ kept, (e, r, sym why))

    entered-Undone :
        (p : Result HostError (String × String) × W) (x : HostError) (c : DeviceConfig) (w' : W)
        → entered N F pci_address ns_path cfg host p ≡ (err x, c, w')
        → Undone x c w'
    unfolding entered
    entered-Undone (ok (name, address), w) x c w' run = absurd (cc)
    entered-Undone (err e, w) x c w' run =
        rolled_back-Undone e (restore_host_device N F ns_path cfg w) x c w'
          (λ d v run.
            let (marked, here, back) =
              restore_host_device-Back N F at holds law ns thread ns_path cfg host w d v has_host
                away run in
            (marked, back))
          (λ r d v. restore_host_device-err N F ns_path cfg host w r d v has_host away) run

    pushed-Undone :
        (p : Result HostError ℕ × W) (x : HostError) (c : DeviceConfig) (w' : W)
        → pushed N F pci_address ns_path cfg host p ≡ (err x, c, w')
        → ((c ≡ cfg) × (p ≡ (err x, w'))) ⊎ Undone x c w'
    unfolding pushed
    pushed-Undone (ok target, w) x c w' run =
        inr (entered-Undone (in_net_ns N F target (enter_pod N F cfg host) w) x c w' run)
    pushed-Undone (err e, w) x c w' run =
        let same : ◌≡◌ {A = Result HostError ℕ × W} (err e, w) (err x, w') = cc in inl (cc, same)

    -- When `attachHostDevice` fails for a device that is not marked as restored, the calling thread
    -- is in the namespace that it was in, and either the method failed before the pod's namespace
    -- was entered and the configuration is unchanged, or the device is marked as restored and the
    -- thread's namespace has a link with the saved name, admin state, MTU, hardware address and IP
    -- addresses, or the configuration is unchanged and the error is that the rollback failed too;
    -- if the kernel does what is documented of it.
    pub attach_host_device-undone :
        (w : W) (x : HostError) (c : DeviceConfig) (w' : W)
        → attach ns_path cfg w ≡ (err x, c, w')
        → (ns w' ≡ ns w)
          × (((c ≡ cfg) × (push_to_pod N F pci_address ns_path cfg host w ≡ (err x, w')))
              ⊎ ((c ≡ restored_config cfg host) × Back N F at holds law host tt w')
              ⊎ ((c ≡ cfg) × ((e : HostError) × (r : HostError) × (x ≡ rollback_failed e r))))
    attach_host_device-undone w x c w' run = (
      ap (λ (m : Moved W). ns m.2) (sym run)
          ∙ attach_host_device-ns N F ns thread pci_address ns_path cfg w,
      pushed-Undone (push_to_pod N F pci_address ns_path cfg host w) x c w'
          (sym (attach-of_host ns_path cfg host w has_host) ∙ run),
    )

  pushed-stranded :
      (ns_path : String) (cfg : DeviceConfig) (host : HostDeviceState) (target : ℕ) (e : HostError)
      (v w' : W)
      → cfg.host_device ≡ some host
      → host.restored ≡ true
      → in_net_ns N F target (enter_pod N F cfg host) v ≡ (err e, w')
      → pushed N F pci_address ns_path cfg host (ok target, v) ≡ (err e, cfg, w')
  unfolding pushed entered rolled_back
  pushed-stranded ns_path cfg host target e v w' has_host back inner =
      ap (entered N F pci_address ns_path cfg host) inner
      ∙ ap (rolled_back N F pci_address e) (restore_of-idle N F ns_path cfg host w' has_host back)

  -- A device that is marked as restored, because it has been in a pod before, has come into the
  -- pod's namespace, and a step fails there: then `attachHostDevice` gives that step's error and
  -- leaves the world as that step has left it, so that nothing moves the device back.
  pub attach_host_device-stranded :
      (ns_path : String) (cfg : DeviceConfig) (host : HostDeviceState) (target : ℕ) (e : HostError)
      (w v w' : W)
      → cfg.host_device ≡ some host
      → host.restored ≡ true
      → push_to_pod N F pci_address ns_path cfg host w ≡ (ok target, v)
      → in_net_ns N F target (enter_pod N F cfg host) v ≡ (err e, w')
      → attach ns_path cfg w ≡ (err e, cfg, w')
  attach_host_device-stranded ns_path cfg host target e w v w' has_host back push inner =
      attach-of_host ns_path cfg host w has_host
      ∙ ap (pushed N F pci_address ns_path cfg host) push
      ∙ pushed-stranded ns_path cfg host target e v w' has_host back inner
