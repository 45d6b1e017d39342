-- ===== src/Driver/Naming/Unused.antt =====
-- `podInterfaceName`: the name is the device's own, or one that no device of the pod has.
use dra_linux_networks.Prelude.{
  ℕ, zero, suc, ◌+◌, ◌-◌, ◌≤◌, ◌<◌, String, ◌<>◌, ◌≡◌, ap, ◌∙◌, sym, false, ◌||◌, Option, some,
  List, [], ◌∷◌, arith, ◌==◌, if◌then◌else◌, contains, trim_prefix, trim_space, Result, ok, inl,
  inr, ◌⊎◌, Bool-cases, Result-cases, Option-cases,
}
use dra_linux_networks.Prelude.Decimal.{itoa}
use dra_linux_networks.Prelude.Dict.{Dict, lookup}
use dra_linux_networks.Driver.{DeviceConfig, PodConfig}
use dra_linux_networks.Driver.Naming.{
  at_key, NameError, validate_pod_interface_name, used_names, atoi, search_index, configured_name,
  annotated_name, devices_or_none, new_name, pod_interface_name, attr_prefix,
}

-- A new name: no device of the pod has it, and it has passed the check or is `net` with an index
-- below ten thousand.
abbrev pub IsNew : List String → String → Type 0
IsNew used name =
    (contains used name ≡ false)
    × ((validate_pod_interface_name name ≡ ok tt)
        ⊎ ((index : ℕ) × (index < 10000) × (name ≡ "net" <> itoa index)))

search_index-IsNew :
    (used : List String) (rounds index : ℕ) (name : String)
    → rounds ≤ 10000 - index
    → search_index used rounds index ≡ some name
    → IsNew used name
unfolding search_index
search_index-IsNew used zero index name h e = absurd (ground arith)
search_index-IsNew used (suc rounds) index name h e =
    let candidate = "net" <> itoa index in
    elim (Bool-cases (contains used candidate)) [
      | inl taken ↦ search_index-IsNew used rounds (index + 1) name (omega arith) (ground arith)
      | inr free ↦
          let same : candidate ≡ name = ground arith in
          (ap (contains used) (sym same) ∙ free, inr (index, omega arith, sym same))
    ]

configured_name-IsNew :
    (used : List String) (configured name : String)
    → configured_name used configured ≡ ok name
    → IsNew used name
unfolding configured_name
configured_name-IsNew used configured name e =
    elim (Result-cases (validate_pod_interface_name configured)) [
      | inr (bad, fails) ↦ absurd (ground arith)
      | inl (u, valid) ↦ elim (Bool-cases (contains used configured)) [
        | inr free ↦
            let same : configured ≡ name = ground arith in
            (
              ap (contains used) (sym same) ∙ free,
              inl (ap validate_pod_interface_name (sym same) ∙ valid),
            )
        | inl taken ↦ elim (Option-cases (atoi (trim_prefix configured "net"))) [
          | inl no_number ↦ absurd (ground arith)
          | inr (start, number) ↦
              search_index-IsNew used (10000 - (start + 1)) (start + 1) name (omega arith)
                (ground arith)
        ]
      ]
    ]

annotated_name-IsNew :
    (annotations : Dict String) (used references : List String)
    (otherwise : Result NameError String) (name : String)
    → (otherwise ≡ ok name → IsNew used name)
    → annotated_name annotations used references otherwise ≡ ok name
    → IsNew used name
unfolding annotated_name
annotated_name-IsNew annotations used [] otherwise name h e = h e
annotated_name-IsNew annotations used (reference ∷ references) otherwise name h e =
    let key = attr_prefix <> ("/" <> (reference <> ".interface-name")) in
    let override = trim_space (at_key key annotations) in
    elim (Bool-cases (reference == "" || override == "")) [
      | inl skip ↦ annotated_name-IsNew annotations used references otherwise name h (ground arith)
      | inr given ↦ elim (Result-cases (validate_pod_interface_name override)) [
        | inr (bad, fails) ↦ absurd (ground arith)
        | inl (u, valid) ↦ elim (Bool-cases (contains used override)) [
          | inl taken ↦ absurd (ground arith)
          | inr free ↦
              let same : override ≡ name = ground arith in
              (
                ap (contains used) (sym same) ∙ free,
                inl (ap validate_pod_interface_name (sym same) ∙ valid),
              )
        ]
      ]
    ]

-- A name that `podInterfaceName` returns is the name that the device has already, or it is a name
-- that no device of the pod has, and which has passed the check or is `net` with an index below
-- ten thousand.
pub pod_interface_name-IsNew :
    (existing : Option PodConfig) (annotations : Dict String)
    (claim_reference request storage_key configured name : String)
    → pod_interface_name existing annotations claim_reference request storage_key configured
      ≡ ok name
    → ((cfg : DeviceConfig) × (lookup storage_key (devices_or_none existing) ≡ some cfg)
        × (cfg.network.interface_name ≡ name))
      ⊎ IsNew (used_names (devices_or_none existing)) name
unfolding pod_interface_name new_name
pod_interface_name-IsNew existing annotations claim_reference request storage_key configured name
      e =
    let devices = devices_or_none existing in
    let used = used_names devices in
    let default = if configured == "" then "net1" else configured in
    let fresh : new_name devices annotations claim_reference request configured ≡ ok name
        → IsNew used name =
      annotated_name-IsNew annotations used (trim_space claim_reference ∷ request ∷ [])
        (configured_name used default) name (configured_name-IsNew used default name) in
    elim (Option-cases (lookup storage_key devices)) [
      | inl missing ↦ inr (fresh (ground arith))
      | inr (cfg, found) ↦ elim (Bool-cases (cfg.network.interface_name == "")) [
        | inl unnamed ↦ inr (fresh (ground arith))
        | inr named ↦ inl (cfg, found, ground arith)
      ]
    ]
