-- ===== src/Kube/Object.antt =====
-- The JSON values of an `unstructured.Unstructured`, and the accessors of its package.
use dra_linux_networks.Prelude.{
  ℕ, String, ◌≡◌, Bool, Option, none, some, List, [], ◌∷◌, ◌==◌, if◌then◌else◌,
}

mutual
  pub data Value : Type 0 where
    text : String → Value
    number : ℕ → Value
    boolean : Bool → Value
    null : Value
    object : Fields → Value
    array : Items → Value

  -- `map[string]interface{}`
  pub data Fields : Type 0 where
    field : String → Value → Fields → Fields
    no_fields : Fields

  -- `[]interface{}`
  pub data Items : Type 0 where
    item : Value → Items → Items
    no_items : Items

-- `v, ok := m[k]`
abbrev pub field_of : String → Fields → Option Value
field_of k no_fields = none
field_of k (field j v fs) = if j == k then some v else field_of k fs

-- `NestedString`, `NestedSlice`, `NestedStringSlice`, `NestedMap`, `NestedInt64`: the value, if
-- it is there and has the type. `GetName`, `GetUID` and `GetGeneration` read the metadata.
pub record Accessors : Type 0 where
  pub nested_string : Fields → List String → Option String
  pub nested_slice : Fields → List String → Option Items
  pub nested_string_slice : Fields → List String → Option (List String)
  pub nested_map : Fields → List String → Option Fields
  pub get_name : Fields → String
  pub get_uid : Fields → String
  pub get_generation : Fields → ℕ

-- What is documented of the accessors, as far as it is used.
pub record IsAccessors (A : Accessors) : Type 0 where
  pub at_field :
      (fs : Fields) (k s : String)
      → field_of k fs ≡ some (text s)
      → A.nested_string fs (k ∷ []) ≡ some s
  pub in_field :
      (fs gs : Fields) (k j : String)
      → field_of k fs ≡ some (object gs)
      → A.nested_string fs (k ∷ j ∷ []) ≡ A.nested_string gs (j ∷ [])
  pub name_at :
      (fs : Fields) (s : String)
      → A.nested_string fs ("metadata" ∷ "name" ∷ []) ≡ some s
      → A.get_name fs ≡ s
