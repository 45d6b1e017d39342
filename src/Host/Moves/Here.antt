-- ===== src/Host/Moves/Here.antt =====
-- The moves leave the calling thread in the namespace that it was in, whatever they answer.
use dra_linux_networks.Prelude.{
  ℕ, String, Bool, true, false, not, Option, none, some, Result, ok, err, ◌≡◌, refl, ◌∙◌, sym, ap,
  ◌==◌, ◌&&◌, Bool-cases, inl, inr, if◌then◌else◌,
}
use dra_linux_networks.Driver.{HostDeviceState, DeviceConfig}
use dra_linux_networks.Host.Kernel.{
  Fault, Link, Formats, HostError, Action, Netlink, ◌>>=◌, call, answered, after,
}
use dra_linux_networks.Host.Laws.{IsThread}
use dra_linux_networks.Host.Link.{find_link}
use dra_linux_networks.Host.Here.{
  Stays, Stays-bind, Stays-call, Stays-while, Stays-done, find_link-Stays, restore_link_state-Stays,
}
use dra_linux_networks.Host.Moves.{
  Moved, set_back, inside, in_net_ns, bring_back, put_back, restore_found, restore_of,
  restore_host_device, enter_pod, after_move, move_to, same_identity, push_to_pod, rolled_back,
  entered, pushed, attach_of, attach_host_device,
}

module _ {W : Type 0} (N : Netlink W) (F : Formats) (ns : W → ℕ) (law : IsThread N ns) where
  inside-ns :
      {A : Type 0} (w v : W) (current target : ℕ) (act : Action W A)
      → N.netns_get w ≡ (ok current, v)
      → (p : Result Fault (Unit {0}) × W) → N.netns_set target v ≡ p
      → ns (after (answered p) (λ u. inside N F current act)).1 ≡ ns w
  unfolding inside set_back
  inside-ns w v current target act got (ok u, x) set = law.returned w v current got (act x).1
  inside-ns w v current target act got (err e, x) set =
      law.not_set target v x e set ∙ ap (λ p. ns p.1) (sym got) ∙ law.get_stays w

  -- `inNetNS` comes back, since `netns.Set` with the namespace that it came from does.
  in_net_ns-Stays :
      {A : Type 0} (target : ℕ) (act : Action W A) → Stays N F ns law (in_net_ns N F target act)
  unfolding in_net_ns ◌>>=◌ call
  in_net_ns-Stays target act = record { run = λ w. from w (N.netns_get w) refl }
    where
      from :
          (w : W) (p : Result Fault ℕ × W)
          → N.netns_get w ≡ p
          → ns
              (after (answered p) (λ current v.
                after (answered (N.netns_set target v)) (λ u. inside N F current act))).1
            ≡ ns w
      from w (ok current, v) got = inside-ns w v current target act got (N.netns_set target v) refl
      from w (err e, v) got = ap (λ p. ns p.1) (sym got) ∙ law.get_stays w

  bring_back-Stays :
      (ns_path : String) (cfg : DeviceConfig) (host : HostDeviceState)
      → Stays N F ns law (bring_back N F ns_path cfg host)
  unfolding bring_back
  bring_back-Stays ns_path cfg host =
      Stays-bind N F ns law _ _ (Stays-call N F ns law _ law.get_stays) (λ root.
        Stays-bind N F ns law _ _
          (Stays-while N F ns law _ _ (Stays-call N F ns law _ (law.path_stays ns_path)))
          (λ target.
            Stays-bind N F ns law _ _ (Stays-while N F ns law _ _ (in_net_ns-Stays target _)) (λ u.
              Stays-bind N F ns law _ _
                (Stays-while N F ns law _ _
                  (Stays-call N F ns law _ (law.name_stays host.original_name)))
                (λ l. restore_link_state-Stays N F ns law l host))))

  put_back-ns :
      (cfg : DeviceConfig) (host : HostDeviceState) (p : Result HostError (Unit {0}) × W)
      → ns (put_back N F cfg host p).2 ≡ ns p.1
  unfolding put_back
  put_back-ns cfg host (ok u, w) = refl
  put_back-ns cfg host (err e, w) = refl

  restore_found-ns :
      (ns_path : String) (cfg : DeviceConfig) (host : HostDeviceState)
      (p : Result HostError Link × W)
      → ns (restore_found N F ns_path cfg host p).2 ≡ ns p.1
  unfolding restore_found
  restore_found-ns ns_path cfg host (ok l, w) =
      put_back-ns cfg host _ ∙ (restore_link_state-Stays N F ns law l host).run w
  restore_found-ns ns_path cfg host (err e, w) = elim (Bool-cases (ns_path == "")) [
    | inl nowhere ↦ rw nowhere refl
    | inr path ↦ rw path (put_back-ns cfg host _ ∙ (bring_back-Stays ns_path cfg host).run w)
  ]

  idle-ns :
      (b : Bool) (cfg : DeviceConfig) (w : W) (found : Moved W)
      → ns found.2 ≡ ns w
      → ns (if b then (ok tt, cfg, w) else found).2 ≡ ns w
  idle-ns true cfg w found h = refl
  idle-ns false cfg w found h = h

  restore_of-ns :
      (ns_path : String) (cfg : DeviceConfig) (o : Option HostDeviceState) (w : W)
      → ns (restore_of N F ns_path cfg o w).2 ≡ ns w
  unfolding restore_of
  restore_of-ns ns_path cfg none w = refl
  restore_of-ns ns_path cfg (some host) w =
      idle-ns host.restored cfg w
        (restore_found N F ns_path cfg host (find_link N F host.original_name host.original_mac w))
        (restore_found-ns ns_path cfg host (find_link N F host.original_name host.original_mac w)
          ∙ (find_link-Stays N F ns law host.original_name host.original_mac).run w)

  pub restore_host_device-ns :
      (ns_path : String) (cfg : DeviceConfig) (w : W)
      → ns (restore_host_device N F ns_path cfg w).2 ≡ ns w
  unfolding restore_host_device
  restore_host_device-ns ns_path cfg w = restore_of-ns ns_path cfg cfg.host_device w

  module _ (pci_address : String → W → String) where
    same_identity-Stays :
        (cfg : DeviceConfig) (host : HostDeviceState)
        → Stays N F ns law (same_identity N F pci_address cfg host)
    unfolding same_identity
    same_identity-Stays cfg host = record {
      run = λ w.
          elim (Bool-cases (
            not (cfg.identity.pci_address == "")
            && not (pci_address host.original_name w == cfg.identity.pci_address))) [
              | inl changed ↦ rw changed refl
              | inr same ↦ rw same refl
            ];
    }

    after_move-ns :
        (host : HostDeviceState) (l : Link) (p : Result Fault (Unit {0}) × W)
        → ns (after_move N F host l p).1 ≡ ns p.1
    unfolding after_move
    after_move-ns host l (ok u, w) = refl
    after_move-ns host l (err e, w) = (restore_link_state-Stays N F ns law l host).run w

    push_to_pod-Stays :
        (ns_path : String) (cfg : DeviceConfig) (host : HostDeviceState)
        → Stays N F ns law (push_to_pod N F pci_address ns_path cfg host)
    unfolding push_to_pod move_to
    push_to_pod-Stays ns_path cfg host =
        Stays-bind N F ns law _ _
          (Stays-while N F ns law _ _ (Stays-call N F ns law _ (law.name_stays host.original_name)))
          (λ l. Stays-bind N F ns law _ _ (same_identity-Stays cfg host) (λ u.
            Stays-bind N F ns law _ _
              (Stays-while N F ns law _ _ (Stays-call N F ns law _ (law.path_stays ns_path)))
              (λ target.
                Stays-bind N F ns law _ _
                  (Stays-while N F ns law _ _ (Stays-call N F ns law _ (law.down_stays l)))
                  (λ u.
                    Stays-bind N F ns law _ _
                      (record {
                        run = λ w.
                            after_move-ns host l (N.link_set_ns_fd l target w)
                            ∙ law.move_stays l target w;
                      })
                      (λ u. Stays-done N F ns law target)))))

    rolled_back-ns : (e : HostError) (m : Moved W) → ns (rolled_back N F pci_address e m).2 ≡ ns m.2
    unfolding rolled_back
    rolled_back-ns e (ok u, cfg, w) = refl
    rolled_back-ns e (err r, cfg, w) = refl

    entered-ns :
        (ns_path : String) (cfg : DeviceConfig) (host : HostDeviceState)
        (p : Result HostError (String × String) × W)
        → ns (entered N F pci_address ns_path cfg host p).2 ≡ ns p.1
    unfolding entered
    entered-ns ns_path cfg host (ok (name, address), w) = refl
    entered-ns ns_path cfg host (err e, w) =
        rolled_back-ns e (restore_host_device N F ns_path cfg w)
        ∙ restore_host_device-ns ns_path cfg w

    pushed-ns :
        (ns_path : String) (cfg : DeviceConfig) (host : HostDeviceState)
        (p : Result HostError ℕ × W)
        → ns (pushed N F pci_address ns_path cfg host p).2 ≡ ns p.1
    unfolding pushed
    pushed-ns ns_path cfg host (ok target, w) =
        entered-ns ns_path cfg host _ ∙ (in_net_ns-Stays target (enter_pod N F cfg host)).run w
    pushed-ns ns_path cfg host (err e, w) = refl

    attach_of-ns :
        (ns_path : String) (cfg : DeviceConfig) (o : Option HostDeviceState) (w : W)
        → ns (attach_of N F pci_address ns_path cfg o w).2 ≡ ns w
    unfolding attach_of
    attach_of-ns ns_path cfg none w = refl
    attach_of-ns ns_path cfg (some host) w =
        pushed-ns ns_path cfg host _ ∙ (push_to_pod-Stays ns_path cfg host).run w

    pub attach_host_device-ns :
        (ns_path : String) (cfg : DeviceConfig) (w : W)
        → ns (attach_host_device N F pci_address ns_path cfg w).2 ≡ ns w
    unfolding attach_host_device
    attach_host_device-ns ns_path cfg w = attach_of-ns ns_path cfg cfg.host_device w
