-- ===== src/Inventory/Published.antt =====
-- What holds of every device that `discoverDPDKDevices` finds.
use dra_linux_networks.Prelude.{
  String, ◌≡◌, ◌≢◌, refl, sym, ◌∙◌, subst, true, false, ◌||◌, Option, none, some, List, [], ◌∷◌,
  ◌==◌, eq_iff, arith, Bool-cases, inl, inr, ◌⊎◌, In, contains_iff, is_empty, to_lower,
}
use dra_linux_networks.Prelude.Dict.{Dict, lookup, insert, lookup-insert}
use dra_linux_networks.Config.{DpdkConfig}
use dra_linux_networks.Driver.{DpdkDeviceState}
use dra_linux_networks.Driver.Dpdk.{dpdk_device_name}
use dra_linux_networks.Inventory.Paths.{Files, join_path, base}
use dra_linux_networks.Inventory.Discover.{
  globbed, uio_nodes, device_nodes, is_single, group_members, is_offered, device_state,
  discover_paths, discover_dpdk_devices, load_pci_ids,
}

module _ (fs : Files) (cfg : DpdkConfig) where
  -- A device that may be given to a pod.
  abbrev pub IsSafe : DpdkDeviceState → Type 0
  IsSafe state =
      In (to_lower state.current_driver) cfg.allowed_kernel_drivers
      × (is_empty state.device_nodes ≡ false)
      × ((state.current_driver ≢ "vfio-pci")
          ⊎ ((member : String) × (group_members fs cfg state.iommu_group ≡ member ∷ [])))
      × ((state.iommu_mode ≢ "noiommu") ⊎ (cfg.allow_unsafe_no_iommu ≡ true))

  single_member : (l : List String) → is_single fs l ≡ true → (member : String) × (l ≡ member ∷ [])
  single_member [] h = absurd (cc)
  single_member (x ∷ []) h = (x, refl)
  single_member (x ∷ y ∷ rest) h = absurd (cc)

  uio_mode : (entries : List String) → (uio_nodes fs cfg entries).0 == "noiommu" ≡ false
  unfolding uio_nodes
  uio_mode [] = refl
  uio_mode (x ∷ []) = elim (Bool-cases (fs.file_exists (join_path (cfg.dev_path ∷ base x ∷ [])))) [
    | inl there ↦ rw there refl
    | inr missing ↦ rw missing refl
  ]
  uio_mode (x ∷ y ∷ rest) = refl

  -- Only a device of vfio-pci has the mode noiommu.
  other_mode :
      (path driver group : String)
      → driver == "vfio-pci" ≡ false
      → (device_nodes fs cfg path driver group).0 == "noiommu" ≡ false
  unfolding device_nodes
  other_mode path driver group other =
      elim (Bool-cases (driver == "uio_pci_generic" || driver == "igb_uio")) [
        | inl uio ↦ rw (other, uio) (uio_mode (globbed fs (join_path (path ∷ "uio/uio*" ∷ []))))
        | inr neither ↦ rw (other, neither) refl
      ]

  offered-IsSafe :
      (state : DpdkDeviceState)
      → (state.current_driver == "vfio-pci" ≡ false → state.iommu_mode == "noiommu" ≡ false)
      → is_offered fs cfg state ≡ true
      → IsSafe state
  unfolding is_offered
  offered-IsSafe state mode offered = elim (Bool-cases (state.current_driver == "vfio-pci")) [
    | inl vfio ↦ (
      (contains_iff cfg.allowed_kernel_drivers (to_lower state.current_driver)).0 (ground (arith)),
      ground (arith),
      inr (single_member (group_members fs cfg state.iommu_group) (ground (arith))),
      elim (Bool-cases cfg.allow_unsafe_no_iommu) [
        | inl allowed ↦ inr allowed
        | inr strict ↦ inl (λ e. ground (arith, eq_iff state.iommu_mode "noiommu"))
      ],
    )
    | inr other ↦ (
      (contains_iff cfg.allowed_kernel_drivers (to_lower state.current_driver)).0 (ground (arith)),
      ground (arith),
      inl (λ e. ground (arith, eq_iff state.current_driver "vfio-pci")),
      inl (λ e. ground (arith, mode other, eq_iff state.iommu_mode "noiommu")),
    )
  ]

  device_state-mode :
      (names : Dict String) (path : String)
      → (device_state fs cfg names path).current_driver == "vfio-pci" ≡ false
      → (device_state fs cfg names path).iommu_mode == "noiommu" ≡ false
  unfolding device_state
  device_state-mode names path other = other_mode path _ _ other

  -- Every device that is found is safe, and stands under the name of its address.
  abbrev AreSafe : Dict DpdkDeviceState → Type 0
  AreSafe devices =
      (name : String) (state : DpdkDeviceState)
      → lookup name devices ≡ some state
      → IsSafe state × (name ≡ dpdk_device_name state.pci_address)

  insert-AreSafe :
      (state : DpdkDeviceState) (devices : Dict DpdkDeviceState)
      → IsSafe state
      → AreSafe devices
      → AreSafe (insert (dpdk_device_name state.pci_address) state devices)
  insert-AreSafe state devices safe rest name found here =
      let own = dpdk_device_name state.pci_address in
      let at_name = sym (lookup-insert own name state devices) ∙ here in
      elim (Bool-cases (own == name)) [
        | inl same ↦
            let e : state ≡ found = ground (arith) in
            subst (λ d. IsSafe d × (name ≡ dpdk_device_name d.pci_address)) e
              (safe, sym ((eq_iff own name).0 same))
        | inr other ↦ rest name found (ground (arith))
      ]

  discover_paths-AreSafe :
      (names : Dict String) (paths : List String) (devices : Dict DpdkDeviceState)
      → AreSafe devices
      → AreSafe (discover_paths fs cfg names paths devices)
  unfolding discover_paths
  discover_paths-AreSafe names [] devices safe = safe
  discover_paths-AreSafe names (path ∷ paths) devices safe =
      let state = device_state fs cfg names path in
      discover_paths-AreSafe names paths _ (elim (Bool-cases (is_offered fs cfg state)) [
        | inl offered ↦ rw offered (
            insert-AreSafe state devices
              (offered-IsSafe state (device_state-mode names path) offered) safe)
        | inr passed ↦ rw passed safe
      ])

  -- Every device that `discoverDPDKDevices` finds stands under the name of its PCI address, has a
  -- driver that the configuration allows and at least one device node; if it is bound to vfio-pci
  -- it is the only device of its IOMMU group; and it is without an IOMMU only where the
  -- configuration allows that.
  pub discover_dpdk_devices-IsSafe :
      (devices : Dict DpdkDeviceState) (name : String) (state : DpdkDeviceState)
      → discover_dpdk_devices fs cfg ≡ some devices
      → lookup name devices ≡ some state
      → IsSafe state × (name ≡ dpdk_device_name state.pci_address)
  unfolding discover_dpdk_devices lookup
  discover_dpdk_devices-IsSafe devices name state found here = elim (Bool-cases cfg.enabled) [
    | inr off ↦ absurd (
        let none_found : ◌≡◌ {A = Option (Dict DpdkDeviceState)} (some []) (some devices) =
          rw off at found in
        let e : [] ≡ devices = cc in
        let h : lookup name [] ≡ some state =
          subst (λ d. lookup name d ≡ some state) (sym e) here in
        cc (h))
    | inl on ↦
        by_glob (fs.glob (join_path (cfg.sysfs_path ∷ "bus/pci/devices/*" ∷ []))) (rw on at found)
  ]
    where
      by_glob :
          (o : Option (List String))
          → (elim o [
            | none ↦ none
            | some paths ↦ some (discover_paths fs cfg (load_pci_ids fs cfg.pci_id_path) paths [])
          ])
            ≡ some devices
          → IsSafe state × (name ≡ dpdk_device_name state.pci_address)
      by_glob none e = absurd (cc)
      by_glob (some paths) e =
          let same : discover_paths fs cfg (load_pci_ids fs cfg.pci_id_path) paths [] ≡ devices =
            cc in
          discover_paths-AreSafe (load_pci_ids fs cfg.pci_id_path) paths [] (λ n s h. absurd (cc h))
            name state (subst (λ d. lookup name d ≡ some state) (sym same) here)
