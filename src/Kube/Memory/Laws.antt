-- ===== src/Kube/Memory/Laws.antt =====
-- The in-memory accessors and server have the documented behaviour.
use dra_linux_networks.Prelude.{
  String, ◌≡◌, ◌≢◌, refl, ap, sym, ◌∙◌, subst, Bool, ◌||◌, true, false, none, some, List, [], ◌∷◌,
  arith, Result, ok, err, ◌==◌, eq_iff, eq_refl, if◌then◌else◌, contains, In, inl, inr, Bool-cases,
  Option-cases,
}
use dra_linux_networks.Kube.Object.{Fields, field_of, IsAccessors}
use dra_linux_networks.Kube.Api.{
  Gvr, ip_pools, ip_allocations, ApiError, not_found, Claim, IsLinearizable, IsUndisturbed,
}
use dra_linux_networks.Kube.Memory.{
  memory_create, memory_delete, memory_get, accessors, server, Cluster, objects, with_objects,
  name_of, text_of, object_of, find_named, remove_named, visible, find_claim, found_or, value_at,
}

pub accessors-IsAccessors : IsAccessors accessors
unfolding name_of
accessors-IsAccessors = record {
  at_field = λ fs k s e. ap text_of e;
  in_field = λ fs gs k j e.
      ap (λ v. text_of (elim (object_of v) [ none ↦ none | some hs ↦ value_at hs (j ∷ []) ])) e;
  name_at = λ fs s e. ap (λ v. elim v [ none ↦ "" | some n ↦ n ]) e;
}

find_named_name :
    (n : String) (os : List Fields) (o : Fields) → find_named n os ≡ some o → name_of o ≡ n
unfolding find_named
find_named_name n [] o e = cc
find_named_name n (x ∷ os) o e = ground (arith, eq_iff (name_of x) n, find_named_name n os o)

find_named-remove_self : (n : String) (os : List Fields) → find_named n (remove_named n os) ≡ none
unfolding find_named remove_named
find_named-remove_self n [] = refl
find_named-remove_self n (x ∷ os) = ground (arith, find_named-remove_self n os)

find_named-remove_ne :
    (n m : String) (os : List Fields) → m ≢ n → find_named m (remove_named n os) ≡ find_named m os
unfolding find_named remove_named
find_named-remove_ne n m [] h = refl
find_named-remove_ne n m (x ∷ os) h =
    ground (arith, eq_iff (name_of x) n, eq_iff (name_of x) m, find_named-remove_ne n m os h)

-- The search in a list, by the name of its head.
find_named-cons :
    (n : String) (x : Fields) (os : List Fields)
    → find_named n (x ∷ os) ≡ (if name_of x == n then some x else find_named n os)
unfolding find_named
find_named-cons n x os = refl

find_named-nil : (n : String) → find_named n [] ≡ none
unfolding find_named
find_named-nil n = refl

visible-nil : (seen : List String) → visible seen [] ≡ []
unfolding visible
visible-nil seen = refl

or_false : (a b : Bool) → (a || b) ≡ false → (a ≡ false) × (b ≡ false)
or_false a b h = ground arith

different :
    (seen : List String) (m n : String)
    → contains seen m ≡ true
    → contains seen n ≡ false
    → (m == n) ≡ false
different seen m n h k = ground (arith, eq_iff m n)

visible-cons_old :
    (seen : List String) (x : Fields) (os : List Fields)
    → contains seen (name_of x) ≡ true
    → visible seen (x ∷ os) ≡ visible seen os
unfolding visible
visible-cons_old seen x os h = ground arith

visible-cons_new :
    (seen : List String) (x : Fields) (os : List Fields)
    → contains seen (name_of x) ≡ false
    → visible seen (x ∷ os) ≡ x ∷ visible (name_of x ∷ seen) os
unfolding visible
visible-cons_new seen x os h = ground arith

visible_found :
    (seen : List String) (os : List Fields) (o : Fields)
    → In o (visible seen os)
    → (contains seen (name_of o) ≡ false) × (find_named (name_of o) os ≡ some o)
visible_found seen [] o h = elim (subst (In o) (visible-nil seen) h) [ ]
visible_found seen (x ∷ os) o h = elim (Bool-cases (contains seen (name_of x))) [
  | inl old ↦
      let ih = visible_found seen os o (subst (In o) (visible-cons_old seen x os old) h) in
      (ih.0, rw (find_named-cons, different seen (name_of x) (name_of o) old ih.0) ih.1)
  | inr new ↦ elim (subst (In o) (visible-cons_new seen x os new) h) [
    | inl same ↦ (rw (← same) new, rw (find_named-cons, ← same, eq_refl))
    | inr later ↦
        let ih = visible_found (name_of x ∷ seen) os o later in
        let (other, unseen) = or_false (name_of x == name_of o) (contains seen (name_of o)) ih.0 in
        (unseen, rw (find_named-cons, other) ih.1)
  ]
]

found_visible :
    (seen : List String) (os : List Fields) (n : String) (o : Fields)
    → contains seen n ≡ false
    → find_named n os ≡ some o
    → In o (visible seen os)
found_visible seen [] n o c e = cc (find_named-nil n)
found_visible seen (x ∷ os) n o c e = elim (Bool-cases (contains seen (name_of x))) [
  | inl old ↦
      subst (In o) (sym (visible-cons_old seen x os old)) (
        found_visible seen os n o c (rw (find_named-cons, different seen (name_of x) n old c) at e))
  | inr new ↦
      subst (In o) (sym (visible-cons_new seen x os new)) (elim (Bool-cases (name_of x == n)) [
        | inl here ↦ inl (ground (arith, find_named-cons n x os))
        | inr there ↦ inr (
            found_visible (name_of x ∷ seen) os n o (ground arith)
              (ground (arith, find_named-cons n x os)))
      ])
]

create_ok :
    (g : Gvr) (o o' : Fields) (w w' : Cluster)
    → memory_create g o w ≡ (ok o', w')
    → (find_named (name_of o) (objects g w') ≡ some o') × (field_of "spec" o' ≡ field_of "spec" o)
create_ok ip_pools o o' w w' e =
    ground (arith, eq_refl (name_of o), find_named-cons (name_of o) o w.pools)
create_ok ip_allocations o o' w w' e =
    ground (arith, eq_refl (name_of o), find_named-cons (name_of o) o w.allocations)

delete_ok :
    (g : Gvr) (n uid : String) (w w' : Cluster) (u : Unit {0})
    → memory_delete g n uid w ≡ (ok u, w')
    → find_named n (objects g w') ≡ none
delete_ok ip_pools n uid w w' u e = ground (arith, find_named-remove_self n w.pools)
delete_ok ip_allocations n uid w w' u e = ground (arith, find_named-remove_self n w.allocations)

delete_absent :
    (g : Gvr) (n uid : String) (w w' : Cluster)
    → memory_delete g n uid w ≡ (err not_found, w')
    → find_named n (objects g w') ≡ none
delete_absent ip_pools n uid w w' e = ground arith
delete_absent ip_allocations n uid w w' e = ground arith

delete_ne :
    (g : Gvr) (n uid m : String) (w w' : Cluster) (r : Result ApiError (Unit {0}))
    → memory_delete g n uid w ≡ (r, w')
    → m ≢ n
    → find_named m (objects g w') ≡ find_named m (objects g w)
delete_ne ip_pools n uid m w w' r e h = ground (arith, find_named-remove_ne n m w.pools h)
delete_ne ip_allocations n uid m w w' r e h =
    ground (arith, find_named-remove_ne n m w.allocations h)

ok_items :
    (items : List Fields) (os : List Fields) (w w' : Cluster)
    → ◌≡◌ {A = Result ApiError (List Fields) × Cluster} (ok os, w) (ok items, w')
    → os ≡ items
ok_items items os w w' e = ground arith

get_ok :
    (g : Gvr) (n : String) (o : Fields) (w w' : Cluster)
    → memory_get g n w ≡ (ok o, w')
    → find_named n (objects g w') ≡ some o
get_ok ip_pools n o w w' e = ground arith
get_ok ip_allocations n o w w' e = ground arith

pub server-IsLinearizable : IsLinearizable accessors server
server-IsLinearizable = record { create_stores = create_ok; get_stored = get_ok }

claim_found :
    (ns n : String) (c : Claim) (w w' : Cluster)
    → ◌≡◌ {A = Result ApiError Claim × Cluster} (found_or (find_claim ns n w.claims), w) (ok c, w')
    → find_claim ns n w.claims ≡ some c
claim_found ns n c w w' e = elim (Option-cases (find_claim ns n w.claims)) [
  | inl gone ↦ absurd (ground arith)
  | inr (d, found) ↦ ground arith
]

claim_missing :
    (ns n : String) (w w' : Cluster)
    → ◌≡◌ {A = Result ApiError Claim × Cluster}
        (found_or (find_claim ns n w.claims), w)
        (err not_found, w')
    → find_claim ns n w.claims ≡ none
claim_missing ns n w w' e = elim (Option-cases (find_claim ns n w.claims)) [
  | inl gone ↦ gone
  | inr (d, found) ↦ absurd (ground arith)
]

with_objects-claims :
    (g : Gvr) (os : List Fields) (w : Cluster) → (with_objects g os w).claims ≡ w.claims
with_objects-claims ip_pools os w = refl
with_objects-claims ip_allocations os w = refl

delete-claims :
    (g : Gvr) (n uid : String) (w : Cluster) → (memory_delete g n uid w).1.claims ≡ w.claims
delete-claims g n uid w = elim (Option-cases (find_named n (objects g w))) [
  | inl gone ↦ rw (gone, memory_delete) refl
  | inr (o, found) ↦
      rw (found, memory_delete)
        (elim (Bool-cases (name_of o == uid)) [
          | inl same ↦ rw same (with_objects-claims g (remove_named n (objects g w)) w)
          | inr other ↦ rw other refl
        ])
]

delete_keeps_claims :
    (g : Gvr) (n uid ns m : String) (w w' : Cluster) (r : Result ApiError (Unit {0}))
    → memory_delete g n uid w ≡ (r, w')
    → find_claim ns m w'.claims ≡ find_claim ns m w.claims
delete_keeps_claims g n uid ns m w w' r e =
    ap (λ t. find_claim ns m t.1.claims) (sym e) ∙ ap (find_claim ns m) (delete-claims g n uid w)

pub server-IsUndisturbed : IsUndisturbed accessors server
server-IsUndisturbed = record {
  stored_name = λ w g n o e. find_named_name n (objects g w) o e;
  list_all = λ g w w' items e o h.
      (visible_found [] (objects g w) o (subst (In o) (sym (ok_items items _ w w' e)) h)).1;
  list_complete = λ g w w' items e n o s.
      subst (In o) (ok_items items _ w w' e) (found_visible [] (objects g w) n o refl s);
  list_keeps = λ g w w' r e. sym (ap (λ t. t.1) e);
  list_missing = λ g n w w' e. cc;
  delete_removes = delete_ok;
  delete_missing = delete_absent;
  delete_others = delete_ne;
  get_claim_keeps = λ ns n w w' r e. sym (ap (λ t. t.1) e);
  get_claim_found = claim_found;
  get_claim_missing = claim_missing;
  delete_claimed = delete_keeps_claims;
}
