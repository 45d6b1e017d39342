-- ===== src/Store/DeleteClaim.antt =====
-- `DeleteClaim`: what it removes and what it keeps.
use dra_linux_networks.Prelude.{
  String, ◌≡◌, ◌≢◌, refl, ap, ◌∙◌, sym, arith, ◌==◌, eq_iff, eq_refl, some, none, [], ◌∷◌,
  Bool-cases, inl, inr, false, All, In, is_empty, subst,
}
use dra_linux_networks.Prelude.Dict.{Dict, lookup-remove}
use dra_linux_networks.Driver.{DeviceConfig, PodConfig}
use dra_linux_networks.Store.{
  Store, Faults, delete_claim, drop_devices, drop_pods, devices_of, allocation_for_claim,
}
use dra_linux_networks.Store.Reserve.{persist-state, allocation-persist}

module _ (claim : String) where
  -- A device of another claim.
  abbrev pub IsForeign : String × DeviceConfig → Type 0
  IsForeign (name, cfg) = cfg.claim_uid ≢ claim

  -- A pod that still has a device, and none of the claim.
  abbrev pub IsClear : String × PodConfig → Type 0
  IsClear (uid, pod) = All IsForeign (devices_of pod) × (is_empty (devices_of pod) ≡ false)

  drop_devices-IsForeign : (m : Dict DeviceConfig) → All IsForeign (drop_devices claim m)
  unfolding drop_devices
  drop_devices-IsForeign [] = tt
  drop_devices-IsForeign ((name, cfg) ∷ m) = elim (Bool-cases (cfg.claim_uid == claim)) [
    | inl mine ↦ rw mine (drop_devices-IsForeign m)
    | inr other ↦
        rw other (λ e. ground (arith, eq_iff cfg.claim_uid claim), drop_devices-IsForeign m)
  ]

  drop_devices-keeps :
      (name : String) (cfg : DeviceConfig) (m : Dict DeviceConfig)
      → cfg.claim_uid ≢ claim
      → In (name, cfg) m
      → In (name, cfg) (drop_devices claim m)
  unfolding drop_devices
  drop_devices-keeps name cfg [] n h = elim h [ ]
  drop_devices-keeps name cfg ((j, d) ∷ m) n (inl e) =
      let same = ap (λ p. p.1) e in
      let other = Bool-cases (d.claim_uid == claim) in
      elim other [
        | inl mine ↦
            absurd (n (ap (λ d. d.claim_uid) (sym same) ∙ (eq_iff d.claim_uid claim).0 mine))
        | inr other ↦ rw other (inl e)
      ]
  drop_devices-keeps name cfg ((j, d) ∷ m) n (inr h) = elim (Bool-cases (d.claim_uid == claim)) [
    | inl mine ↦ rw mine (drop_devices-keeps name cfg m n h)
    | inr other ↦ rw other (inr (drop_devices-keeps name cfg m n h))
  ]

  drop_pods-IsClear : (m : Dict PodConfig) → All IsClear (drop_pods claim m)
  unfolding drop_pods
  drop_pods-IsClear [] = tt
  drop_pods-IsClear ((uid, pod) ∷ m) =
      elim (Bool-cases (is_empty (drop_devices claim (devices_of pod)))) [
        | inl gone ↦ rw gone (drop_pods-IsClear m)
        | inr left ↦ rw left ((drop_devices-IsForeign (devices_of pod), left), drop_pods-IsClear m)
      ]

  In-not-empty : (p : String × DeviceConfig) (m : Dict DeviceConfig) → In p m → is_empty m ≡ false
  In-not-empty p [] h = elim h [ ]
  In-not-empty p (q ∷ m) h = refl

  -- The pod `uid` of `m` has the device.
  abbrev pub Has : String → String × DeviceConfig → Dict PodConfig → Type 0
  Has uid d m = (pod : PodConfig) × In (uid, pod) m × In d (devices_of pod)

  drop_pods-keeps :
      (uid name : String) (cfg : DeviceConfig) (m : Dict PodConfig)
      → cfg.claim_uid ≢ claim
      → Has uid (name, cfg) m
      → Has uid (name, cfg) (drop_pods claim m)
  unfolding drop_pods
  drop_pods-keeps uid name cfg [] n (pod, h, d) = elim h [ ]
  drop_pods-keeps uid name cfg ((j, q) ∷ m) n (pod, inl e, d) =
      let here = drop_devices-keeps name cfg (devices_of pod) n d in
      let there =
        subst (λ q. In (name, cfg) (drop_devices claim (devices_of q))) (sym (ap (λ p. p.1) e))
          here in
      rw (In-not-empty _ _ there) (
        record q { devices = some (drop_devices claim (devices_of q)) },
        inl (
            ap (λ i. (i, record q { devices = some (drop_devices claim (devices_of q)) }))
              (ap (λ p. p.0) e)),
        there,
      )
  drop_pods-keeps uid name cfg ((j, q) ∷ m) n (pod, inr h, d) =
      let rest = drop_pods-keeps uid name cfg m n (pod, h, d) in
      elim (Bool-cases (is_empty (drop_devices claim (devices_of q)))) [
        | inl gone ↦ rw gone rest
        | inr left ↦ rw left (rest.0, inr rest.1, rest.2)
      ]

  module _ (io : Faults) (s : Store) where
    -- After `DeleteClaim`, whatever the file system answers, the claim has no address, no pod has a
    -- device of the claim, and no pod is left without a device.
    pub delete_claim_clears :
        All IsClear (delete_claim io claim s).1.state.pods
        × (allocation_for_claim claim (delete_claim io claim s).1 ≡ none)
    unfolding delete_claim allocation_for_claim
    delete_claim_clears = (
      subst (λ t. All IsClear t.pods) (sym (persist-state io _)) (drop_pods-IsClear s.state.pods),
      allocation-persist io claim _
          ∙ lookup-remove claim claim s.state.ip_allocations
          ∙ rw (eq_refl claim) refl,
    )

    -- `DeleteClaim` keeps the devices of every other claim, each under its pod and its key, and the
    -- address of every other claim.
    pub delete_claim_keeps :
        (uid name : String) (cfg : DeviceConfig) (other : String)
        → cfg.claim_uid ≢ claim
        → other ≢ claim
        → Has uid (name, cfg) s.state.pods
        → Has uid (name, cfg) (delete_claim io claim s).1.state.pods
          × (allocation_for_claim other (delete_claim io claim s).1 ≡ allocation_for_claim other s)
    unfolding delete_claim allocation_for_claim
    delete_claim_keeps uid name cfg other n o h = (
      subst (λ t. Has uid (name, cfg) t.pods) (sym (persist-state io _))
          (drop_pods-keeps uid name cfg s.state.pods n h),
      allocation-persist io other _
          ∙ lookup-remove claim other s.state.ip_allocations
          ∙ ground (arith, eq_iff claim other),
    )
