-- ===== src/IpamApi.antt =====
-- internal/ipamapi/allocation.go: the cluster-wide records of the addresses that are in use.
pub mod RoundTrip
pub mod Exclusive
pub mod Cleanup
pub mod Find
use Prim.Native.Char.{nul}
use Prim.Native.String.{char_at}
use dra_linux_networks.Prelude.{
  ℕ, zero, suc, ◌/◌, ◌%◌, String, ◌<>◌, ◌≡◌, Bool, true, false, ◌&&◌, ◌||◌, not, Option, none, some,
  List, [], ◌∷◌, Result, ok, err, ◌==◌, if◌then◌else◌, trim_space,
}
use dra_linux_networks.Kube.{
  Value, text, object, Fields, no_fields, field, field_of, Accessors, Gvr, ip_allocations, ApiError,
  already_exists, is_not_found, is_already_exists, Server,
}

pub record ObjectReference : Type 0 where
  pub namespace : String
  pub name : String
  pub uid : String

pub record Allocation : Type 0 where
  pub name : String
  pub pool : String
  pub address : String
  pub allocation_type : String
  pub claim : ObjectReference
  pub pod : ObjectReference
  pub node_name : String

pub data ParseError : Type 0 where
  no_spec missing_field : String → ParseError

-- An error of a call to the API server, or of `ParseAllocation`.
pub data Failure : Type 0 where
  api : ApiError → Failure
  malformed : ParseError → Failure

-- `apierrors.IsAlreadyExists`
abbrev pub failed_exists : Failure → Bool
failed_exists (api e) = is_already_exists e
failed_exists (malformed _) = false

-- `hex.EncodeToString`
unfoldable pub hex_encode : List ℕ → String
hex_encode [] = ""
hex_encode (b ∷ bytes) =
    String.◌∷◌ (char_at "0123456789abcdef" (b / 16))
      (String.◌∷◌ (char_at "0123456789abcdef" (b % 16)) (hex_encode bytes))

-- `sum[:n]`
first : ℕ → List ℕ → List ℕ
first zero bytes = []
first (suc n) [] = []
first (suc n) (b ∷ bytes) = b ∷ first n bytes

pub reference : ObjectReference → Fields
reference r =
    field "namespace" (text r.namespace)
      (field "name" (text r.name) (field "uid" (text r.uid) no_fields))

pub spec_of : Allocation → Fields
unfolding reference
spec_of a = field "poolRef" (text a.pool) (
    field "address" (text a.address) (
      field "allocationType" (text a.allocation_type) (
        field "claimRef" (object (reference a.claim)) (
          field "podRef" (object (reference a.pod))
            (field "nodeName" (text a.node_name) no_fields)))))

module _ (sha256 : String → List ℕ) where
  unfoldable pub allocation_name : String → String → String
  unfolding first hex_encode
  allocation_name pool address =
      "ipa-" <> hex_encode (first 16 (sha256 (pool <> (String.◌∷◌ nul "" <> address))))

  unfoldable pub new_allocation_object : Allocation → Fields
  unfolding spec_of
  new_allocation_object a = field "apiVersion" (text "linux-net.dra.infinitydon.com/v1alpha1") (
      field "kind" (text "IPAllocation") (
        field "metadata"
          (object (
            field "name" (text (allocation_name a.pool a.address)) (
              field "labels"
                (object (field "linux-net.dra.infinitydon.com/pool" (text a.pool) no_fields))
                no_fields)))
          (field "spec" (object (spec_of a)) no_fields)))

-- The value of `v, _, _ := NestedString(…)`.
abbrev or_empty : Option String → String
or_empty none = ""
or_empty (some s) = s

module _ (A : Accessors) where
  open A use {nested_string, get_name, get_uid}

  reference_from_spec : Fields → String → ObjectReference
  reference_from_spec spec name = record {
    namespace = or_empty (nested_string spec (name ∷ "namespace" ∷ []));
    name = or_empty (nested_string spec (name ∷ "name" ∷ []));
    uid = or_empty (nested_string spec (name ∷ "uid" ∷ []));
  }

  -- The fields that are read before any is checked.
  read_allocation : Fields → Fields → Allocation
  unfolding reference_from_spec
  read_allocation obj spec = record {
    name = get_name obj;
    pool = or_empty (nested_string spec ("poolRef" ∷ []));
    address = or_empty (nested_string spec ("address" ∷ []));
    allocation_type = or_empty (nested_string spec ("allocationType" ∷ []));
    claim = reference_from_spec spec "claimRef";
    pod = reference_from_spec spec "podRef";
    node_name = or_empty (nested_string spec ("nodeName" ∷ []));
  }

  check_allocation : Fields → Allocation → Result ParseError Allocation
  check_allocation obj a =
      if trim_space a.pool == "" || trim_space a.address == "" || a.claim.uid == ""
      then err (missing_field (get_name obj))
      else ok a

  -- `obj.Object["spec"].(map[string]interface{})`
  parse_spec : Fields → Option Value → Result ParseError Allocation
  unfolding read_allocation check_allocation
  parse_spec obj (some (object spec)) = check_allocation obj (read_allocation obj spec)
  parse_spec obj _ = err (no_spec (get_name obj))

  unfoldable pub parse_allocation : Fields → Result ParseError Allocation
  unfolding parse_spec
  parse_allocation obj = parse_spec obj (field_of "spec" obj)

-- Whether an item of the list is a record of the claim.
pub is_of_claim : String → Result ParseError Allocation → Bool
is_of_claim claim_uid (err e) = false
is_of_claim claim_uid (ok a) = a.claim.uid == claim_uid

module _ (A : Accessors) (S : Server) where
  open A use {get_name, get_uid}
  open S use {World, create, get, list, delete}

  -- The comparison of the stored allocation with the requested one.
  compare_existing : Allocation → Fields → Result ParseError Allocation → Result Failure Fields
  compare_existing a existing (err e) = err (malformed e)
  compare_existing a existing (ok parsed) =
      if parsed.claim.uid == a.claim.uid && parsed.pool == a.pool && parsed.address == a.address
      then ok existing
      else err (api already_exists)

  after_get : Allocation → Result ApiError Fields × World → Result Failure Fields × World
  unfolding compare_existing
  after_get a (err e, w) = (err (api e), w)
  after_get a (ok existing, w) = (compare_existing a existing (parse_allocation A existing), w)

  after_create :
      Allocation → String → Result ApiError Fields × World → Result Failure Fields × World
  unfolding after_get
  after_create a name (ok created, w) = (ok created, w)
  after_create a name (err e, w) =
      if is_already_exists e then after_get a (get ip_allocations name w) else (err (api e), w)

  unfoldable pub reserve : (String → List ℕ) → Allocation → World → Result Failure Fields × World
  unfolding after_create
  reserve sha256 a w =
      let desired = new_allocation_object sha256 a in
      after_create a (get_name desired) (create ip_allocations desired w)

  delete_items : String → List Fields → World → Result ApiError (Unit {0}) × World
  unfolding is_of_claim
  delete_items claim_uid [] w = (ok tt, w)
  delete_items claim_uid (o ∷ items) w = elim (is_of_claim claim_uid (parse_allocation A o)) [
    | false ↦ delete_items claim_uid items w
    | true ↦
        let (r, w') = delete ip_allocations (get_name o) (get_uid o) w in
        elim r [
          | ok u ↦ delete_items claim_uid items w'
          | err e ↦ elim (is_not_found e) [
            | true ↦ delete_items claim_uid items w'
            | false ↦ (err e, w')
          ]
        ]
  ]

  after_list : String → Result ApiError (List Fields) × World → Result ApiError (Unit {0}) × World
  unfolding delete_items
  after_list claim_uid (err e, w) = (if is_not_found e then ok tt else err e, w)
  after_list claim_uid (ok items, w) = delete_items claim_uid items w

  unfoldable pub delete_for_claim : String → World → Result ApiError (Unit {0}) × World
  unfolding after_list
  delete_for_claim claim_uid w = after_list claim_uid (list ip_allocations w)

  find_item : String → List Fields → Option Allocation
  find_item claim_uid [] = none
  find_item claim_uid (o ∷ items) = elim (parse_allocation A o) [
    | err e ↦ find_item claim_uid items
    | ok a ↦ if a.claim.uid == claim_uid then some a else find_item claim_uid items
  ]

  after_find :
      String → Result ApiError (List Fields) × World → Result ApiError (Option Allocation) × World
  unfolding find_item
  after_find claim_uid (err e, w) = (if is_not_found e then ok none else err e, w)
  after_find claim_uid (ok items, w) = (ok (find_item claim_uid items), w)

  -- `none` is the result `false`.
  unfoldable pub find_for_claim : String → World → Result ApiError (Option Allocation) × World
  unfolding after_find
  find_for_claim claim_uid w = after_find claim_uid (list ip_allocations w)
