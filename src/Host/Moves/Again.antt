-- ===== src/Host/Moves/Again.antt =====
-- `restoreHostDevice` twice, and `attachHostDevice` where it fails.
use dra_linux_networks.Prelude.{
  String, Bool, true, false, none, some, Result, ok, err, ◌≡◌, refl, sym, ◌∙◌, ap, subst, ◌⊎◌, inl,
  inr, ◌==◌, Option-cases, Bool-cases, if◌then◌else◌,
}
use dra_linux_networks.Driver.{HostDeviceState, DeviceConfig}
use dra_linux_networks.Host.Kernel.{Link, Formats, HostError, namespace_unavailable, Netlink}
use dra_linux_networks.Host.Link.{find_link, restore_link_state}
use dra_linux_networks.Host.Moves.{
  Moved, restored_config, bring_back, put_back, restore_found, restore_of, restore_host_device,
}
use dra_linux_networks.Host.Moves.Back.{restore_host_device-away}

module _ {W : Type 0} (N : Netlink W) (F : Formats) where
  put_back-again :
      (cfg : DeviceConfig) (host : HostDeviceState) (p : Result HostError (Unit {0}) × W)
      (ns_path : String) (c : DeviceConfig) (w' : W)
      → put_back N F cfg host p ≡ (ok tt, c, w')
      → restore_host_device N F ns_path c w' ≡ (ok tt, c, w')
  unfolding put_back restore_host_device restore_of
  put_back-again cfg host (ok u, w) ns_path c w' e =
      let same : restored_config cfg host ≡ c = cc in
      subst (λ d. restore_host_device N F ns_path d w' ≡ (ok tt, d, w')) same refl
  put_back-again cfg host (err x, w) ns_path c w' e = absurd (cc)

  put_back-err :
      (cfg : DeviceConfig) (host : HostDeviceState) (p : Result HostError (Unit {0}) × W)
      (x : HostError) (c : DeviceConfig) (w' : W)
      → put_back N F cfg host p ≡ (err x, c, w')
      → c ≡ cfg
  unfolding put_back
  put_back-err cfg host (ok u, w) x c w' e = absurd (cc)
  put_back-err cfg host (err y, w) x c w' e = cc

  put_back-marks :
      (cfg : DeviceConfig) (host : HostDeviceState) (p : Result HostError (Unit {0}) × W)
      (c : DeviceConfig) (w' : W)
      → put_back N F cfg host p ≡ (ok tt, c, w')
      → c ≡ restored_config cfg host
  unfolding put_back
  put_back-marks cfg host (ok u, w) c w' e = cc
  put_back-marks cfg host (err x, w) c w' e = absurd (cc)

  -- The two ends of the method for a device that is away.
  abbrev Ends : DeviceConfig → HostDeviceState → Moved W → Type 0
  Ends cfg host m =
      ((p : Result HostError (Unit {0}) × W) × (m ≡ put_back N F cfg host p))
      ⊎ ((x : HostError) × (w : W) × (m ≡ (err x, cfg, w)))

  restore_found-Ends :
      (ns_path : String) (cfg : DeviceConfig) (host : HostDeviceState)
      (p : Result HostError Link × W)
      → Ends cfg host (restore_found N F ns_path cfg host p)
  unfolding restore_found
  restore_found-Ends ns_path cfg host (ok l, w) = inl (restore_link_state N F l host w, refl)
  restore_found-Ends ns_path cfg host (err x, w) = by_path (ns_path == "")
    where
      by_path :
          (b : Bool)
          → Ends cfg host (
              if b
              then (err (namespace_unavailable host.original_name), cfg, w)
              else put_back N F cfg host (bring_back N F ns_path cfg host w))
      by_path true = inr (namespace_unavailable host.original_name, w, refl)
      by_path false = inl (bring_back N F ns_path cfg host w, refl)

  restore_host_device-Ends :
      (ns_path : String) (cfg : DeviceConfig) (host : HostDeviceState) (w : W)
      → cfg.host_device ≡ some host
      → host.restored ≡ false
      → Ends cfg host (restore_host_device N F ns_path cfg w)
  restore_host_device-Ends ns_path cfg host w has_host away =
      subst (Ends cfg host) (sym (restore_host_device-away N F ns_path cfg host w has_host away))
        (restore_found-Ends ns_path cfg host (find_link N F host.original_name host.original_mac w))

  -- A device with no saved state, or marked as restored, is left as it is.
  pub restore_of-idle :
      (ns_path : String) (cfg : DeviceConfig) (host : HostDeviceState) (w : W)
      → cfg.host_device ≡ some host
      → host.restored ≡ true
      → restore_host_device N F ns_path cfg w ≡ (ok tt, cfg, w)
  unfolding restore_host_device restore_of
  restore_of-idle ns_path cfg host w has_host back =
      let found =
        restore_found N F ns_path cfg host (find_link N F host.original_name host.original_mac w) in
      ap (λ o. restore_of N F ns_path cfg o w) has_host
      ∙ ap (λ b. if b then (ok tt, cfg, w) else found) back

  restore_of-none :
      (ns_path : String) (cfg : DeviceConfig) (w : W)
      → cfg.host_device ≡ none
      → restore_host_device N F ns_path cfg w ≡ (ok tt, cfg, w)
  unfolding restore_host_device restore_of
  restore_of-none ns_path cfg w missing = ap (λ o. restore_of N F ns_path cfg o w) missing

  idle-again :
      (ns_path other : String) (cfg c : DeviceConfig) (w w' : W)
      → ((path : String) → restore_host_device N F path cfg w ≡ (ok tt, cfg, w))
      → restore_host_device N F ns_path cfg w ≡ (ok tt, c, w')
      → restore_host_device N F other c w' ≡ (ok tt, c, w')
  idle-again ns_path other cfg c w w' idle e =
      let both : ◌≡◌ {A = Moved W} (ok tt, cfg, w) (ok tt, c, w') = sym (idle ns_path) ∙ e in
      subst (λ m. restore_host_device N F other m.1 m.2 ≡ (ok tt, m.1, m.2)) both (idle other)

  -- Once `restoreHostDevice` has reported no error, a second call, with whatever path, reports no
  -- error either and changes neither the configuration nor the world.
  pub restore_host_device-again :
      (ns_path other : String) (cfg c : DeviceConfig) (w w' : W)
      → restore_host_device N F ns_path cfg w ≡ (ok tt, c, w')
      → restore_host_device N F other c w' ≡ (ok tt, c, w')
  restore_host_device-again ns_path other cfg c w w' e = elim (Option-cases cfg.host_device) [
    | inl missing ↦
        idle-again ns_path other cfg c w w' (λ path. restore_of-none path cfg w missing) e
    | inr (host, has_host) ↦ elim (Bool-cases host.restored) [
      | inl back ↦
          idle-again ns_path other cfg c w w'
            (λ path. restore_of-idle path cfg host w has_host back) e
      | inr away ↦ elim (restore_host_device-Ends ns_path cfg host w has_host away) [
        | inl (p, same) ↦ put_back-again cfg host p other c w' (sym same ∙ e)
        | inr (x, v, same) ↦ absurd (cc (sym same ∙ e))
      ]
    ]
  ]

  -- An error of `restoreHostDevice` leaves the configuration as it was.
  pub restore_host_device-err :
      (ns_path : String) (cfg : DeviceConfig) (host : HostDeviceState) (w : W) (x : HostError)
      (c : DeviceConfig) (w' : W)
      → cfg.host_device ≡ some host
      → host.restored ≡ false
      → restore_host_device N F ns_path cfg w ≡ (err x, c, w')
      → c ≡ cfg
  restore_host_device-err ns_path cfg host w x c w' has_host away e =
      elim (restore_host_device-Ends ns_path cfg host w has_host away) [
        | inl (p, same) ↦ put_back-err cfg host p x c w' (sym same ∙ e)
        | inr (y, v, same) ↦ cc (sym same ∙ e)
      ]

  -- A device that is restored is marked.
  pub restore_host_device-marks :
      (ns_path : String) (cfg : DeviceConfig) (host : HostDeviceState) (w : W) (c : DeviceConfig)
      (w' : W)
      → cfg.host_device ≡ some host
      → host.restored ≡ false
      → restore_host_device N F ns_path cfg w ≡ (ok tt, c, w')
      → c ≡ restored_config cfg host
  restore_host_device-marks ns_path cfg host w c w' has_host away e =
      elim (restore_host_device-Ends ns_path cfg host w has_host away) [
        | inl (p, same) ↦ put_back-marks cfg host p c w' (sym same ∙ e)
        | inr (y, v, same) ↦ absurd (cc (sym same ∙ e))
      ]
