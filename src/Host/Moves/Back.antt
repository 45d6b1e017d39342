-- ===== src/Host/Moves/Back.antt =====
-- `restoreHostDevice`: what a device is like when the method reports no error, and when it does.
use dra_linux_networks.Prelude.{
  ℕ, String, Bool, true, false, not, Option, none, some, List, [], ◌∷◌, Result, ok, err, ◌≡◌, refl,
  sym, ◌∙◌, ap, subst, inl, inr, ◌==◌, ◌&&◌, Bool-cases, arith, if◌then◌else◌, All,
}
use dra_linux_networks.Driver.{HostDeviceState, DeviceConfig}
use dra_linux_networks.Host.Kernel.{
  Fault, fault, Link, Formats, HostError, namespace_unavailable, Action, Netlink, call, Gives,
  gives_bind, gives_call, gives_done, gives_fail, gives_while, find_restored,
}
use dra_linux_networks.Host.Link.{
  find_link, equal_fold, found_by_name, found_or, link_with_address, restore_link_state,
}
use dra_linux_networks.Host.Laws.{Settings, settings_of, IsNetlink, IsThread}
use dra_linux_networks.Host.Moves.Here.{restore_host_device-ns}
use dra_linux_networks.Host.LinkBack.{Back, restore_link_state_gives}
use dra_linux_networks.Host.Moves.{
  Moved, restored_config, bring_back, put_back, restore_found, restore_of, restore_host_device,
}

module _ {W : Type 0} (N : Netlink W) (F : Formats) where
  put_back-cfg :
      (cfg : DeviceConfig) (host : HostDeviceState) (p : Result HostError (Unit {0}) × W)
      (c : DeviceConfig) (w' : W)
      → put_back N F cfg host p ≡ (ok tt, c, w')
      → (c ≡ restored_config cfg host) × (p ≡ (ok tt, w'))
  unfolding put_back
  put_back-cfg cfg host (ok u, w) c w' e =
      let there : ◌≡◌ {A = Result HostError (Unit {0}) × W} (ok u, w) (ok tt, w') = cc in
      (cc, there)
  put_back-cfg cfg host (err x, w) c w' e = absurd (cc)

  -- The way of a device that is not marked as restored.
  pub restore_host_device-away :
      (ns_path : String) (cfg : DeviceConfig) (host : HostDeviceState) (w : W)
      → cfg.host_device ≡ some host
      → host.restored ≡ false
      → restore_host_device N F ns_path cfg w
        ≡ restore_found N F ns_path cfg host (find_link N F host.original_name host.original_mac w)
  unfolding restore_host_device restore_of
  restore_host_device-away ns_path cfg host w has_host away =
      let found =
        restore_found N F ns_path cfg host (find_link N F host.original_name host.original_mac w) in
      ap (λ o. restore_of N F ns_path cfg o w) has_host
      ∙ ap (λ b. if b then (ok tt, cfg, w) else found) away

  module _ (at : W → ℕ → Option Settings) (holds : W → ℕ → Option String → Type 0)
      (law : IsNetlink N at holds) where
    abbrev There : Link → W → Type 0
    There l w = at w l.index ≡ some (settings_of l)

    listed_link :
        (address : String) (links : List Link) (w : W)
        → All (λ l. There l w) links
        → (l : Link) → link_with_address address links ≡ some l
        → There l w
    unfolding link_with_address
    listed_link address [] w h l e = absurd (cc)
    listed_link address (x ∷ xs) w h l e =
        elim (Bool-cases (not (address == "") && equal_fold x.hardware_addr address)) [
          | inl here ↦ let same : x ≡ l = ground (arith) in subst (λ m. There m w) same h.0
          | inr other ↦ listed_link address xs w h.1 l (ground (arith))
        ]

    found_or_gives :
        (name address : String) (links : List Link)
        → Gives
            (λ w. All (λ l. There l w) links)
            (found_or N F name address (link_with_address address links))
            There
    unfolding found_or
    found_or_gives name address links = from_option (link_with_address address links) refl
      where
        from_option :
            (o : Option Link)
            → link_with_address address links ≡ o
            → Gives (λ w. All (λ l. There l w) links) (found_or N F name address o) There
        from_option none e = gives_fail _ _ _
        from_option (some l) e = gives_done _ There l (λ w h. listed_link address links w h l e)

    found_by_name-There :
        (name address : String) (p : Result Fault Link × W)
        → ((l : Link) (w : W) → p ≡ (ok l, w) → There l w)
        → (l : Link) (w' : W) → found_by_name N F name address p ≡ (ok l, w')
        → There l w'
    unfolding found_by_name
    found_by_name-There name address (ok l, w) h m w' e =
        h m w' (let same : ◌≡◌ {A = Result Fault Link × W} (ok l, w) (ok m, w') = cc in same)
    found_by_name-There name address (err x, w) h m w' e =
        Gives.run
          (gives_bind (λ w. Unit {0}) (λ links w. All (λ l. There l w) links) There
            (call N.link_list)
            (λ links. found_or N F name address (link_with_address address links))
            (gives_call _ _ _ (λ v u links v' run. law.listed v v' links run))
            (λ links. found_or_gives name address links))
          w tt m w' e

    named-There :
        (name : String) (w : W) (blank : Bool) (m : Link) (v : W)
        → (if blank then (err (fault ""), w) else N.link_by_name name w) ≡ (ok m, v)
        → There m v
    named-There name w true m v e = absurd (cc)
    named-There name w false m v e = (law.found_by_name name w v m e).0

    -- A link that `findLink` gives is there.
    pub find_link_gives :
        (name address : String) → Gives (λ w. Unit {0}) (find_link N F name address) There
    unfolding find_link
    find_link_gives name address = record {
      run = λ w u l w' e.
          found_by_name-There name address
            (if name == "" then (err (fault ""), w) else N.link_by_name name w)
            (named-There name w (name == "")) l w' e;
    }

    -- The way through the pod's namespace ends with the link in the host's.
    bring_back_gives :
        (ns_path : String) (cfg : DeviceConfig) (host : HostDeviceState)
        → Gives (λ w. Unit {0}) (bring_back N F ns_path cfg host) (Back N F at holds law host)
    unfolding bring_back
    bring_back_gives ns_path cfg host =
        gives_bind _ (λ a w. Unit {0}) _ _ _ (any _)
          (λ root.
            gives_bind _ (λ a w. Unit {0}) _ _ _ (any _)
              (λ target.
                gives_bind _ (λ a w. Unit {0}) _ _ _ (any _)
                  (λ u.
                    gives_bind _ There _ _ _
                      (gives_while _ _ find_restored _ (
                        gives_call _ _ _
                          (λ w h l w' e. (law.found_by_name host.original_name w w' l e).0)))
                      (λ l. restore_link_state_gives N F at holds law l host))))
      where
        any : {A : Type 0} (m : Action W A) → Gives (λ w. Unit {0}) m (λ a w. Unit {0})
        any m = record { run = λ w h a w' e. tt }

    restore_found-Back :
        (ns_path : String) (cfg : DeviceConfig) (host : HostDeviceState)
        (p : Result HostError Link × W)
        → ((l : Link) (w : W) → p ≡ (ok l, w) → There l w)
        → (c : DeviceConfig) (w' : W) → restore_found N F ns_path cfg host p ≡ (ok tt, c, w')
        → (c ≡ restored_config cfg host) × Back N F at holds law host tt w'
    unfolding restore_found
    restore_found-Back ns_path cfg host (ok l, w) h c w' e =
        let (same, run) = put_back-cfg cfg host (restore_link_state N F l host w) c w' e in
        (same, (restore_link_state_gives N F at holds law l host).run w (h l w refl) tt w' run)
    restore_found-Back ns_path cfg host (err x, w) h c w' e = by_path (ns_path == "") e
      where
        by_path :
            (b : Bool)
            → (if b
                then (err (namespace_unavailable host.original_name), cfg, w)
                else put_back N F cfg host (bring_back N F ns_path cfg host w))
              ≡ (ok tt, c, w')
            → (c ≡ restored_config cfg host) × Back N F at holds law host tt w'
        by_path true e = absurd (cc)
        by_path false e =
            let (same, run) = put_back-cfg cfg host (bring_back N F ns_path cfg host w) c w' e in
            (same, (bring_back_gives ns_path cfg host).run w tt tt w' run)

    -- When `restoreHostDevice` reports no error for a device that is not marked as restored, the
    -- device is marked, with no name in a pod and the state Restored, and nothing else of its
    -- configuration has changed; the calling thread is in the namespace that it was in, which has a
    -- link with the saved name, up if and only if it was up, with the saved MTU and hardware
    -- address where these were saved, and with every IP address that was saved; if the kernel does
    -- what is documented of it.
    pub restore_host_device-Back :
        (ns : W → ℕ) (thread : IsThread N ns) (ns_path : String) (cfg : DeviceConfig)
        (host : HostDeviceState) (w : W) (c : DeviceConfig) (w' : W)
        → cfg.host_device ≡ some host
        → host.restored ≡ false
        → restore_host_device N F ns_path cfg w ≡ (ok tt, c, w')
        → (c ≡ restored_config cfg host) × (ns w' ≡ ns w) × Back N F at holds law host tt w'
    restore_host_device-Back ns thread ns_path cfg host w c w' has_host away e =
        let (marked, back) =
          restore_found-Back ns_path cfg host (find_link N F host.original_name host.original_mac w)
            (λ l v found. (find_link_gives host.original_name host.original_mac).run w tt l v found)
            c w' (sym (restore_host_device-away ns_path cfg host w has_host away) ∙ e) in
        (
          marked,
          ap (λ (m : Moved W). ns m.2) (sym e) ∙ restore_host_device-ns N F ns thread ns_path cfg w,
          back,
        )
