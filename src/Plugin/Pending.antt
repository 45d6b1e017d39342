-- ===== src/Plugin/Pending.antt =====
-- The loops over a pod's devices: each device that is still to be done, by some test, is one of
-- the entries that are left.
use dra_linux_networks.Prelude.{
  String, ◌≡◌, sym, ◌∙◌, ap, Bool, true, false, some, [], ◌∷◌, ◌==◌, eq_refl, arith, Bool-cases,
  inl, inr,
}
use dra_linux_networks.Prelude.Dict.{Dict, lookup}
use dra_linux_networks.Driver.{DeviceConfig}
use dra_linux_networks.Store.{Store, Faults, set_device}
use dra_linux_networks.Store.Devices.{device_at, device_at-set_device}

module _ (pending : DeviceConfig → Bool) (uid : String) where
  abbrev pub Left : Dict DeviceConfig → Store → Type 0
  Left entries s =
      (key : String) (c : DeviceConfig)
      → device_at uid key s ≡ some c
      → pending c ≡ true
      → lookup key entries ≡ some c

  -- An entry that needs nothing.
  pub Left-skip :
      (name : String) (cfg : DeviceConfig) (entries : Dict DeviceConfig) (s : Store)
      → pending cfg ≡ false
      → Left ((name, cfg) ∷ entries) s
      → Left entries s
  unfolding lookup
  Left-skip name cfg entries s done left key c here more =
      let found = left key c here more in
      elim (Bool-cases (name == key)) [
        | inl same ↦ absurd (let e : cfg ≡ c = ground (arith) in cc (ap pending e))
        | inr other ↦ ground (arith)
      ]

  -- An entry that is done and written.
  pub Left-set_device :
      (io : Faults) (name : String) (cfg new : DeviceConfig) (entries : Dict DeviceConfig)
      (s : Store)
      → pending new ≡ false
      → Left ((name, cfg) ∷ entries) s
      → Left entries (set_device io uid name new s).1
  unfolding lookup
  Left-set_device io name cfg new entries s done left key c here more =
      let now = sym (device_at-set_device io uid s name new uid key) ∙ here in
      elim (Bool-cases (name == key)) [
        | inl same ↦ absurd (let e : new ≡ c = ground (arith, eq_refl uid) in cc (ap pending e))
        | inr other ↦
            let before : device_at uid key s ≡ some c = ground (arith, eq_refl uid) in
            let found = left key c before more in ground (arith)
      ]

  -- No entry is left.
  pub Left-nil :
      (s : Store)
      → Left [] s
      → (key : String) (c : DeviceConfig) → device_at uid key s ≡ some c
      → pending c ≡ false
  unfolding lookup
  Left-nil s left key c here = elim (Bool-cases (pending c)) [
    | inl more ↦ absurd (let found = left key c here more in cc)
    | inr done ↦ done
  ]
