-- ===== src/Driver/Naming/Static.antt =====
-- `podStaticAddress`: an address from the annotations of a pod is for the pool of the claim.
use dra_linux_networks.Prelude.{
  String, ◌<>◌, ◌≡◌, ◌≢◌, refl, ap, sym, from_ok, ◌&&◌, ◌||◌, List, [], ◌∷◌, arith, ◌==◌, eq_iff,
  is_empty, trim_space, ok, In, inl, inr, Bool-cases,
}
use dra_linux_networks.Prelude.Dict.{Dict}
use dra_linux_networks.Driver.Naming.{at_key, attr_prefix, static_from, pod_static_address}

module _ (annotations : Dict String) (expected_pool : String) where
  -- The annotations of the name `base` give the address, and name the pool of the claim.
  abbrev pub IsAsked : String → String → Type 0
  IsAsked address base =
      (trim_space (at_key (base <> ".address") annotations) ≡ address)
      × (trim_space (at_key (base <> ".ip-pool") annotations) ≡ expected_pool)

  static_from-IsAsked :
      (bases : List String) (address : String)
      → address ≢ ""
      → static_from annotations expected_pool bases ≡ ok address
      → (expected_pool ≢ "") × (base : String) × In base bases × IsAsked address base
  unfolding static_from
  static_from-IsAsked [] address n e = absurd (n (ap (from_ok "") (sym e)))
  static_from-IsAsked (base ∷ bases) address n e =
      let found = trim_space (at_key (base <> ".address") annotations) in
      let pool = trim_space (at_key (base <> ".ip-pool") annotations) in
      elim (Bool-cases (found == "" && pool == "")) [
        | inl none_here ↦
            let (given, other, listed, asked) =
              static_from-IsAsked bases address n (ground arith) in
            (given, other, inr listed, asked)
        | inr some_here ↦ elim (Bool-cases (found == "" || pool == "")) [
          | inl half ↦ absurd (ground arith)
          | inr both ↦ elim (Bool-cases (expected_pool == "")) [
            | inl no_pool ↦ absurd (ground arith)
            | inr given ↦ elim (Bool-cases (pool == expected_pool)) [
              | inr differs ↦ absurd (ground arith)
              | inl same ↦ (
                (λ h. ground (arith, eq_iff expected_pool "")),
                base,
                inl refl,
                (ground arith, (eq_iff pool expected_pool).0 same),
              )
            ]
          ]
        ]
      ]

  -- When `podStaticAddress` returns an address that is not empty, the claim has a pool, and the pod
  -- has annotations, under the name of the request or that of the interface, which give this address
  -- and name this pool.
  pub pod_static_address-IsAsked :
      (request interface_name address : String)
      → address ≢ ""
      → pod_static_address annotations request interface_name expected_pool ≡ ok address
      → (expected_pool ≢ "")
        × (base : String) × In base
            ((attr_prefix <> ("/" <> request)) ∷ (attr_prefix <> ("/" <> interface_name)) ∷ [])
        × IsAsked address base
  unfolding pod_static_address
  pod_static_address-IsAsked request interface_name address n e =
      elim (Bool-cases (is_empty annotations)) [
        | inl empty ↦ absurd (n (ap (from_ok "") (sym (rw empty at e))))
        | inr some_given ↦
            static_from-IsAsked
              ((attr_prefix <> ("/" <> request)) ∷ (attr_prefix <> ("/" <> interface_name)) ∷ [])
              address n (rw some_given at e)
      ]
