-- ===== src/Config/Load/Valid.antt =====
-- What `Load` has established about a configuration that it returns.
use dra_linux_networks.Prelude.{
  ℕ, ◌+◌, String, ◌≡◌, ◌≢◌, refl, ap, ◌∙◌, subst, Bool, true, false, not, ◌&&◌, ◌||◌, List, [], ◌∷◌,
  arith, ◌==◌, eq_iff, is_empty, All, Result, ok, from_ok, >>=-eq-ok, inl, inr, ◌⊎◌, Bool-cases,
}
use dra_linux_networks.Config.Types.{IpPool, InterfaceConfig, Config}
use dra_linux_networks.Config.Load.{
  LoadError, default_driver_name, with_defaults, text_or, list_or, scan_types, fill_interface,
  check_types, load_interface, own_range, load_pool, load_each, load_dpdk, load,
}

abbrev pub IsHost : String → Type 0
IsHost t = t ≡ "host-device"

abbrev pub IsShared : String → Type 0
IsShared t = (t ≡ "macvlan") ⊎ (t ≡ "ipvlan")

-- The policy and the types go together: an exclusive interface has host devices only, and a shared
-- one links only.
abbrev pub AreConsistent : String → List String → Type 0
AreConsistent policy types =
    ((policy ≡ "exclusive") × All IsHost types) ⊎ ((policy ≡ "shared") × All IsShared types)

scan_types-host :
    (i : ℕ) (types : List String) (h s s' : Bool)
    → scan_types i types h s ≡ ok (false, s')
    → (h ≡ false) × All IsShared types
unfolding scan_types
scan_types-host i [] h s s' e = (ground arith, tt)
scan_types-host i (t ∷ types) h s s' e = elim (Bool-cases (t == "host-device")) [
  | inl host ↦
      let (none_yet, rest) = scan_types-host i types true s s' (ground arith) in
      absurd (ground arith)
  | inr other ↦ elim (Bool-cases (t == "macvlan" || t == "ipvlan")) [
    | inl link ↦
        let (none_yet, rest) = scan_types-host i types h true s' (ground arith) in
        (none_yet, (ground (arith, eq_iff t "macvlan", eq_iff t "ipvlan"), rest))
    | inr unknown ↦ absurd (ground arith)
  ]
]

scan_types-shared :
    (i : ℕ) (types : List String) (h s h' : Bool)
    → scan_types i types h s ≡ ok (h', false)
    → (s ≡ false) × All IsHost types
unfolding scan_types
scan_types-shared i [] h s h' e = (ground arith, tt)
scan_types-shared i (t ∷ types) h s h' e = elim (Bool-cases (t == "host-device")) [
  | inl host ↦
      let (none_yet, rest) = scan_types-shared i types true s h' (ground arith) in
      (none_yet, ((eq_iff t "host-device").0 host, rest))
  | inr other ↦ elim (Bool-cases (t == "macvlan" || t == "ipvlan")) [
    | inl link ↦
        let (none_yet, rest) = scan_types-shared i types h true h' (ground arith) in
        absurd (ground arith)
    | inr unknown ↦ absurd (ground arith)
  ]
]

-- An interface as the driver uses it.
pub record IsLoaded (ifc : InterfaceConfig) : Type 0 where
  pub named : ifc.name ≢ ""
  pub typed : is_empty ifc.types ≡ false
  pub consistent : AreConsistent ifc.allocation_policy ifc.types
  pub modes : (is_empty ifc.macvlan_modes ≡ false) × (is_empty ifc.ipvlan_modes ≡ false)

-- A pool as the driver uses it.
pub record IsLoadedPool (pool : IpPool) : Type 0 where
  pub named : pool.name ≢ ""
  pub subnet : pool.subnet ≢ ""
  pub allocations : is_empty pool.allocations ≡ false

list_or-full : (x : String) (d value : List String) → is_empty (list_or (x ∷ d) value) ≡ false
list_or-full x d [] = refl
list_or-full x d (y ∷ value) = refl

check_types-consistent :
    (i : ℕ) (ifc ifc' : InterfaceConfig) (found : Bool × Bool)
    → scan_types i ifc.types false false ≡ ok found
    → check_types i ifc found ≡ ok ifc'
    → AreConsistent ifc.allocation_policy ifc.types × (fill_interface ifc ≡ ifc')
unfolding check_types
check_types-consistent i ifc ifc' (true, shared) s e =
    elim (Bool-cases (ifc.allocation_policy == "exclusive")) [
      | inr open_policy ↦ absurd (let bad = rw open_policy at e in ground arith)
      | inl exclusive ↦ elim (Bool-cases shared) [
        | inl both ↦ absurd (let bad = rw (exclusive, both) at e in ground arith)
        | inr host_only ↦
            let hosts =
              (scan_types-shared i ifc.types false false true
                (s ∙ ap (λ b. ok (true, b)) host_only)).1 in
            (
              inl ((eq_iff ifc.allocation_policy "exclusive").0 exclusive, hosts),
              ap (from_ok ifc) (rw (exclusive, host_only) at e),
            )
      ]
    ]
check_types-consistent i ifc ifc' (false, shared) s e =
    elim (Bool-cases (ifc.allocation_policy == "shared")) [
      | inr open_policy ↦ absurd (let bad = rw open_policy at e in ground arith)
      | inl policy ↦ (
        inr (
          (eq_iff ifc.allocation_policy "shared").0 policy,
          (scan_types-host i ifc.types false false shared s).1,
        ),
        ap (from_ok ifc) (rw policy at e),
      )
    ]

-- What a loop has established of each element.
load_each-All :
    {A : Type 0} (P : A → Type 0) (step : ℕ → A → Result LoadError A)
    → ((i : ℕ) (x y : A) → step i x ≡ ok y → P y)
    → (i : ℕ) (xs ys : List A) → load_each step i xs ≡ ok ys
    → All P ys
unfolding load_each
load_each-All P step h i [] ys e = subst (All P) (ap (from_ok []) e) tt
load_each-All P step h i (x ∷ xs) ys e =
    let (y, made, e') = >>=-eq-ok (step i x) _ e in
    let (zs, rest, e'') = >>=-eq-ok (load_each step (i + 1) xs) _ e' in
    subst (All P) (ap (from_ok []) e'') (h i x y made, load_each-All P step h (i + 1) xs zs rest)

load_pool-IsLoadedPool : (i : ℕ) (raw pool : IpPool) → load_pool i raw ≡ ok pool → IsLoadedPool pool
unfolding load_pool
load_pool-IsLoadedPool i raw pool e = elim (Bool-cases (raw.name == "")) [
  | inl no_name ↦ absurd (let bad = rw no_name at e in ground arith)
  | inr name ↦ elim (Bool-cases (raw.subnet == "")) [
    | inl no_subnet ↦ absurd (let bad = rw (name, no_subnet) at e in ground arith)
    | inr subnet ↦ elim (Bool-cases (is_empty (own_range raw))) [
      | inl no_range ↦ absurd (let bad = rw (name, subnet, no_range) at e in ground arith)
      | inr ranges ↦
          subst IsLoadedPool (ap (from_ok raw) (rw (name, subnet, ranges) at e)) (record {
            named = λ h. ground (arith, eq_iff raw.name "");
            subnet = λ h. ground (arith, eq_iff raw.subnet "");
            allocations = ranges;
          })
    ]
  ]
]

fill_interface-IsLoaded :
    (own : InterfaceConfig)
    → own.name ≢ ""
    → is_empty own.types ≡ false
    → AreConsistent own.allocation_policy own.types
    → IsLoaded (fill_interface own)
unfolding fill_interface
fill_interface-IsLoaded own n t c = record {
  named = n;
  typed = t;
  consistent = c;
  modes = (
    list_or-full "bridge" ("private" ∷ "vepa" ∷ "passthru" ∷ []) own.macvlan_modes,
    list_or-full "l2" ("l3" ∷ "l3s" ∷ []) own.ipvlan_modes,
  );
}

absurd_text : default_driver_name ≡ "" → ⊥
absurd_text h = cc

text_or-full : (value : String) → text_or default_driver_name value ≢ ""
text_or-full value h = elim (Bool-cases (value == "")) [
  | inl empty ↦ absurd_text (rw empty at h)
  | inr full ↦ ground (arith, eq_iff value "")
]

load_interface-IsLoaded :
    (i : ℕ) (raw ifc : InterfaceConfig) → load_interface i raw ≡ ok ifc → IsLoaded ifc
unfolding load_interface
load_interface-IsLoaded i raw ifc e =
    let own = with_defaults raw in
    let known =
      not (own.allocation_policy == "shared") && not (own.allocation_policy == "exclusive") in
    elim (Bool-cases (raw.name == "")) [
      | inl no_name ↦ absurd (let bad = rw no_name at e in ground arith)
      | inr name ↦ elim (Bool-cases known) [
        | inl bad_policy ↦ absurd (let bad = rw (name, bad_policy) at e in ground arith)
        | inr policy ↦
            let (found, scanned, checked) =
              >>=-eq-ok (scan_types i own.types false false) (check_types i own)
                (rw (name, policy) at e) in
            let (consistent, same) = check_types-consistent i own ifc found scanned checked in
            subst IsLoaded same (
              fill_interface-IsLoaded own (λ h. ground (arith, eq_iff raw.name ""))
                (list_or-full "macvlan" ("ipvlan" ∷ []) raw.types) consistent)
      ]
    ]

-- A configuration that `Load` returns is fit for use: each interface has a name, at least one
-- type and mode, and a policy that goes with its types, and each pool has a name, a subnet and a
-- range.
pub load-IsLoaded :
    (raw cfg : Config)
    → load raw ≡ ok cfg
    → All IsLoaded cfg.interfaces × All IsLoadedPool cfg.ip_pools × (cfg.driver_name ≢ "")
unfolding load
load-IsLoaded raw cfg e =
    let (dpdk, d, e₁) = >>=-eq-ok (load_dpdk raw.dpdk) _ e in
    let (interfaces, loaded, e₂) = >>=-eq-ok (load_each load_interface 0 raw.interfaces) _ e₁ in
    let (pools, filled, e₃) = >>=-eq-ok (load_each load_pool 0 raw.ip_pools) _ e₂ in
    let same = ap (from_ok raw) e₃ in
    (
      subst (λ c. All IsLoaded c.interfaces) same
          (load_each-All IsLoaded load_interface load_interface-IsLoaded 0 raw.interfaces interfaces
            loaded),
      subst (λ c. All IsLoadedPool c.ip_pools) same
          (load_each-All IsLoadedPool load_pool load_pool-IsLoadedPool 0 raw.ip_pools pools filled),
      subst (λ c. c.driver_name ≢ "") same (text_or-full raw.driver_name),
    )
