-- ===== src/IpamApi/RoundTrip.antt =====
-- What `NewAllocationObject` writes, `ParseAllocation` reads.
use dra_linux_networks.Prelude.{
  String, List, ℕ, ◌≡◌, ◌≢◌, refl, ap, ◌∙◌, some, [], ◌∷◌, arith, ok, trim_space, eq_iff,
}
use dra_linux_networks.Kube.{text, object, Fields, field_of, Accessors, IsAccessors}
use dra_linux_networks.IpamApi.{
  ObjectReference, Allocation, allocation_name, new_allocation_object, parse_allocation, parse_spec,
  check_allocation, read_allocation, reference_from_spec, reference, spec_of, or_empty,
}

-- The fields that `ParseAllocation` requires.
pub record IsComplete (a : Allocation) : Type 0 where
  pub pool : trim_space a.pool ≢ ""
  pub address : trim_space a.address ≢ ""
  pub uid : a.claim.uid ≢ ""

module _ (A : Accessors) (L : IsAccessors A) (sha256 : String → List ℕ) where
  -- A reference is read back from the field that holds it.
  reference_read :
      (spec : Fields) (k : String) (r : ObjectReference)
      → field_of k spec ≡ some (object (reference r))
      → reference_from_spec A spec k ≡ r
  unfolding reference_from_spec reference
  reference_read spec k r e = λ i. record {
    namespace = or_empty (at "namespace" r.namespace refl i);
    name = or_empty (at "name" r.name refl i);
    uid = or_empty (at "uid" r.uid refl i);
  }
    where
      at :
          (j s : String)
          → field_of j (reference r) ≡ some (text s)
          → A.nested_string spec (k ∷ j ∷ []) ≡ some s
      at j s h = rw (L.in_field spec (reference r) k j e) (L.at_field (reference r) j s h)

  read_back :
      (obj : Fields) (a : Allocation)
      → read_allocation A obj (spec_of a) ≡ record a { name = A.get_name obj }
  unfolding read_allocation spec_of
  read_back obj a = λ i. record {
    name = A.get_name obj;
    pool = or_empty (L.at_field (spec_of a) "poolRef" a.pool refl i);
    address = or_empty (L.at_field (spec_of a) "address" a.address refl i);
    allocation_type = or_empty (L.at_field (spec_of a) "allocationType" a.allocation_type refl i);
    claim = reference_read (spec_of a) "claimRef" a.claim refl i;
    pod = reference_read (spec_of a) "podRef" a.pod refl i;
    node_name = or_empty (L.at_field (spec_of a) "nodeName" a.node_name refl i);
  }

  check_complete : (obj : Fields) (a : Allocation) → IsComplete a → check_allocation A obj a ≡ ok a
  unfolding check_allocation
  check_complete obj a c = ground (
    arith,
    c.pool,
    c.address,
    c.uid,
    eq_iff (trim_space a.pool) "",
    eq_iff (trim_space a.address) "",
    eq_iff a.claim.uid "",
  )

  -- An object whose spec was written for an allocation is parsed as this allocation.
  pub parse_spec_of :
      (obj : Fields) (a : Allocation)
      → IsComplete a
      → field_of "spec" obj ≡ some (object (spec_of a))
      → parse_allocation A obj ≡ ok (record a { name = A.get_name obj })
  unfolding parse_allocation
  parse_spec_of obj a c e =
      ap (parse_spec A obj) e
      ∙ ap (check_allocation A obj) (read_back obj a)
      ∙ check_complete obj (record a { name = A.get_name obj })
          (record { pool = c.pool; address = c.address; uid = c.uid })

  -- The object's name is the name that is computed from the pool and the address.
  pub name-new_allocation_object :
      (a : Allocation)
      → A.get_name (new_allocation_object sha256 a) ≡ allocation_name sha256 a.pool a.address
  unfolding new_allocation_object
  name-new_allocation_object a =
      L.name_at _ _ (rw (L.in_field _ _ "metadata" "name" refl) (L.at_field _ "name" _ refl))

  -- Writing an allocation as an object and parsing it gives the allocation back, under the name
  -- that its pool and its address determine, if these two are not blank and the claim has a UID.
  pub parse-new_allocation_object :
      (a : Allocation)
      → IsComplete a
      → parse_allocation A (new_allocation_object sha256 a)
        ≡ ok (record a { name = allocation_name sha256 a.pool a.address })
  unfolding new_allocation_object
  parse-new_allocation_object a c =
      parse_spec_of (new_allocation_object sha256 a) a c refl
      ∙ ap (λ n. ok (record a { name = n })) (name-new_allocation_object a)
