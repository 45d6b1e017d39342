-- ===== src/Kube/Memory.antt =====
-- A server that keeps its objects in memory, and accessors that follow the fields: the
-- parameters of the model at concrete functions.
pub mod Laws
use dra_linux_networks.Prelude.{
  ℕ, String, Bool, true, false, Option, none, some, List, [], ◌∷◌, ◌++◌, Result, ok, err, ◌==◌,
  ◌&&◌, if◌then◌else◌, contains,
}
use dra_linux_networks.Kube.Object.{
  Value, number, text, array, object, Items, no_items, item, Fields, field_of, Accessors,
}
use dra_linux_networks.Kube.Api.{
  Gvr, ip_pools, ip_allocations, ApiError, not_found, already_exists, conflict, Claim, Server,
}

abbrev text_of : Option Value → Option String
text_of (some (text s)) = some s
text_of _ = none

abbrev object_of : Option Value → Option Fields
object_of (some (object fs)) = some fs
object_of _ = none

abbrev items_of : Option Value → Option Items
items_of (some (array xs)) = some xs
items_of _ = none

abbrev number_of : Option Value → ℕ
number_of (some (number n)) = n
number_of _ = 0

abbrev texts_of : Items → Option (List String)
texts_of no_items = some []
texts_of (item (text s) xs) = elim (texts_of xs) [ none ↦ none | some ss ↦ some (s ∷ ss) ]
texts_of (item _ xs) = none

abbrev value_at : Fields → List String → Option Value
value_at fs [] = some (object fs)
value_at fs (k ∷ []) = field_of k fs
value_at fs (k ∷ j ∷ ks) = elim (object_of (field_of k fs)) [
  | none ↦ none
  | some gs ↦ value_at gs (j ∷ ks)
]

abbrev nested_text : Fields → List String → Option String
nested_text fs ks = text_of (value_at fs ks)

unfoldable pub name_of : Fields → String
name_of fs = elim (nested_text fs ("metadata" ∷ "name" ∷ [])) [ none ↦ "" | some s ↦ s ]

-- An object's name serves as its UID.
abbrev pub accessors : Accessors
accessors = record {
  nested_string = nested_text;
  nested_slice = λ fs ks. items_of (value_at fs ks);
  nested_string_slice =
      λ fs ks. elim (items_of (value_at fs ks)) [ none ↦ none | some xs ↦ texts_of xs ];
  nested_map = λ fs ks. object_of (value_at fs ks);
  get_name = name_of;
  get_uid = name_of;
  get_generation = λ fs. number_of (value_at fs ("metadata" ∷ "generation" ∷ []));
}

pub record Cluster : Type 0 where
  pub pools : List Fields
  pub allocations : List Fields
  pub claims : List Claim

abbrev pub objects : Gvr → Cluster → List Fields
objects ip_pools w = w.pools
objects ip_allocations w = w.allocations

abbrev pub with_objects : Gvr → List Fields → Cluster → Cluster
with_objects ip_pools os w = record w { pools = os }
with_objects ip_allocations os w = record w { allocations = os }

unfoldable pub find_named : String → List Fields → Option Fields
find_named n [] = none
find_named n (o ∷ os) = if name_of o == n then some o else find_named n os

unfoldable pub remove_named : String → List Fields → List Fields
remove_named n [] = []
remove_named n (o ∷ os) = let rest = remove_named n os in if name_of o == n then rest else o ∷ rest

-- The objects, each name once.
unfoldable pub visible : List String → List Fields → List Fields
visible seen [] = []
visible seen (o ∷ os) = elim (contains seen (name_of o)) [
  | true ↦ visible seen os
  | false ↦ o ∷ visible (name_of o ∷ seen) os
]

unfoldable pub find_claim : String → String → List Claim → Option Claim
find_claim ns n [] = none
find_claim ns n (c ∷ cs) = if c.namespace == ns && c.name == n then some c else find_claim ns n cs

abbrev pub memory_create : Gvr → Fields → Cluster → Result ApiError Fields × Cluster
memory_create g o w = elim (find_named (name_of o) (objects g w)) [
  | some _ ↦ (err already_exists, w)
  | none ↦ (ok o, with_objects g (o ∷ objects g w) w)
]

abbrev found_or : {A : Type 0} → Option A → Result ApiError A
found_or none = err not_found
found_or (some a) = ok a

abbrev pub memory_get : Gvr → String → Cluster → Result ApiError Fields × Cluster
memory_get g n w = (found_or (find_named n (objects g w)), w)

abbrev pub memory_delete : Gvr → String → String → Cluster → Result ApiError (Unit {0}) × Cluster
memory_delete g n uid w = elim (find_named n (objects g w)) [
  | none ↦ (err not_found, w)
  | some o ↦
      if name_of o == uid
      then (ok tt, with_objects g (remove_named n (objects g w)) w)
      else (err conflict, w)
]

abbrev pub memory_update : Gvr → Fields → Cluster → Result ApiError Fields × Cluster
memory_update g o w = elim (find_named (name_of o) (objects g w)) [
  | none ↦ (err not_found, w)
  | some _ ↦ (ok o, with_objects g (o ∷ remove_named (name_of o) (objects g w)) w)
]

abbrev pub server : Server
server = record {
  World = Cluster;
  create = memory_create;
  get = memory_get;
  list = λ g w. (ok (visible [] (objects g w)), w);
  delete = memory_delete;
  update_status = memory_update;
  get_claim = λ ns n w. (found_or (find_claim ns n w.claims), w);
  stored = λ w g n. find_named n (objects g w);
  claimed = λ w ns n. find_claim ns n w.claims;
}
