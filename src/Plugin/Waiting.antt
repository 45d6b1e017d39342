-- ===== src/Plugin/Waiting.antt =====
-- The loop over a pod's devices in `RunPodSandbox`: each device that the store has for the pod is
-- as it should be, or one of the entries that are left.
use dra_linux_networks.Prelude.{
  String, ◌≡◌, sym, ◌∙◌, subst, some, [], ◌∷◌, ◌==◌, eq_iff, eq_refl, arith, Bool-cases, inl, inr,
  ◌⊎◌,
}
use dra_linux_networks.Prelude.Dict.{Dict, lookup}
use dra_linux_networks.Driver.{DeviceConfig}
use dra_linux_networks.Store.{Store, Faults, set_device}
use dra_linux_networks.Store.Devices.{device_at, device_at-set_device}

module _ (Good : String → DeviceConfig → Type 0) (uid : String) where
  abbrev pub Waiting : Dict DeviceConfig → Store → Type 0
  Waiting entries s =
      (key : String) (c : DeviceConfig)
      → device_at uid key s ≡ some c
      → Good key c ⊎ (lookup key entries ≡ some c)

  -- An entry that needs nothing.
  pub Waiting-skip :
      (name : String) (cfg : DeviceConfig) (entries : Dict DeviceConfig) (s : Store)
      → Good name cfg
      → Waiting ((name, cfg) ∷ entries) s
      → Waiting entries s
  unfolding lookup
  Waiting-skip name cfg entries s good wait key c here = elim (wait key c here) [
    | inl done ↦ inl done
    | inr found ↦ elim (Bool-cases (name == key)) [
      | inl same ↦
          let e : cfg ≡ c = ground (arith) in
          inl (subst (λ k. Good k c) ((eq_iff name key).0 same) (subst (Good name) e good))
      | inr other ↦ inr (ground (arith))
    ]
  ]

  -- An entry that is done and written.
  pub Waiting-set_device :
      (io : Faults) (name : String) (cfg new : DeviceConfig) (entries : Dict DeviceConfig)
      (s : Store)
      → Good name new
      → Waiting ((name, cfg) ∷ entries) s
      → Waiting entries (set_device io uid name new s).1
  unfolding lookup
  Waiting-set_device io name cfg new entries s good wait key c here =
      let now = sym (device_at-set_device io uid s name new uid key) ∙ here in
      elim (Bool-cases (name == key)) [
        | inl same ↦
            let e : new ≡ c = ground (arith, eq_refl uid) in
            inl (subst (λ k. Good k c) ((eq_iff name key).0 same) (subst (Good name) e good))
        | inr other ↦
            let before : device_at uid key s ≡ some c = ground (arith, eq_refl uid) in
            elim (wait key c before) [ inl done ↦ inl done | inr found ↦ inr (ground (arith)) ]
      ]

  -- No entry is left.
  pub Waiting-nil :
      (s : Store)
      → Waiting [] s
      → (key : String) (c : DeviceConfig) → device_at uid key s ≡ some c
      → Good key c
  unfolding lookup
  Waiting-nil s wait key c here = elim (wait key c here) [
    | inl done ↦ done
    | inr found ↦ absurd (cc)
  ]
