-- ===== src/Kube/Api.antt =====
-- The API server, for the two custom resources and for ResourceClaims. A call takes the state
-- of the cluster and gives its answer and the state in which it answers.
use dra_linux_networks.Prelude.{
  String, ◌≡◌, ◌≢◌, Bool, true, false, Option, none, some, List, In, Result, ok, err,
}
use dra_linux_networks.Kube.Object.{Fields, Accessors, field_of}

-- `IPPoolGVR` and `IPAllocationGVR`
pub data Gvr : Type 0 where
  ip_pools ip_allocations : Gvr

-- The reason of an `apierrors.StatusError`.
pub data ApiError : Type 0 where
  not_found already_exists conflict : ApiError
  api_failure : String → ApiError

abbrev pub is_not_found : ApiError → Bool
is_not_found not_found = true
is_not_found _ = false

abbrev pub is_already_exists : ApiError → Bool
is_already_exists already_exists = true
is_already_exists _ = false

-- What is read of a ResourceClaim.
pub record Claim : Type 0 where
  pub namespace : String
  pub name : String
  pub uid : String

pub record Server : Type 1 where
  pub World : Type 0
  pub create : Gvr → Fields → World → Result ApiError Fields × World
  pub get : Gvr → String → World → Result ApiError Fields × World
  pub list : Gvr → World → Result ApiError (List Fields) × World
  -- with the UID of the object as a precondition
  pub delete : Gvr → String → String → World → Result ApiError (Unit {0}) × World
  pub update_status : Gvr → Fields → World → Result ApiError Fields × World
  pub get_claim : String → String → World → Result ApiError Claim × World
  -- The object of a name, and the claim of a namespace and a name, in a state.
  pub stored : World → Gvr → String → Option Fields
  pub claimed : World → String → String → Option Claim

-- The answers are true of the state in which they are given. Nothing is said of the state before,
-- so other clients may write between the calls.
pub record IsLinearizable (A : Accessors) (S : Server) : Type 0 where
  pub create_stores :
      (g : Gvr) (o o' : Fields) (w w' : S.World)
      → S.create g o w ≡ (ok o', w')
      → (S.stored w' g (A.get_name o) ≡ some o') × (field_of "spec" o' ≡ field_of "spec" o)
  pub get_stored :
      (g : Gvr) (n : String) (o : Fields) (w w' : S.World)
      → S.get g n w ≡ (ok o, w')
      → S.stored w' g n ≡ some o

-- While no other client writes, a call changes what it names and nothing else.
pub record IsUndisturbed (A : Accessors) (S : Server) : Type 0 where
  pub stored_name :
      (w : S.World) (g : Gvr) (n : String) (o : Fields) → S.stored w g n ≡ some o → A.get_name o ≡ n
  pub list_all :
      (g : Gvr) (w w' : S.World) (items : List Fields)
      → S.list g w ≡ (ok items, w')
      → (o : Fields) → In o items
      → S.stored w g (A.get_name o) ≡ some o
  pub list_complete :
      (g : Gvr) (w w' : S.World) (items : List Fields)
      → S.list g w ≡ (ok items, w')
      → (n : String) (o : Fields) → S.stored w g n ≡ some o
      → In o items
  pub list_keeps :
      (g : Gvr) (w w' : S.World) (r : Result ApiError (List Fields)) → S.list g w ≡ (r, w') → w' ≡ w
  -- The resource is not installed.
  pub list_missing :
      (g : Gvr) (n : String) (w w' : S.World)
      → S.list g w ≡ (err not_found, w')
      → S.stored w' g n ≡ none
  pub delete_removes :
      (g : Gvr) (n uid : String) (w w' : S.World) (u : Unit {0})
      → S.delete g n uid w ≡ (ok u, w')
      → S.stored w' g n ≡ none
  pub delete_missing :
      (g : Gvr) (n uid : String) (w w' : S.World)
      → S.delete g n uid w ≡ (err not_found, w')
      → S.stored w' g n ≡ none
  pub delete_others :
      (g : Gvr) (n uid m : String) (w w' : S.World) (r : Result ApiError (Unit {0}))
      → S.delete g n uid w ≡ (r, w')
      → m ≢ n
      → S.stored w' g m ≡ S.stored w g m
  pub get_claim_keeps :
      (ns n : String) (w w' : S.World) (r : Result ApiError Claim)
      → S.get_claim ns n w ≡ (r, w')
      → w' ≡ w
  pub get_claim_found :
      (ns n : String) (c : Claim) (w w' : S.World)
      → S.get_claim ns n w ≡ (ok c, w')
      → S.claimed w ns n ≡ some c
  pub get_claim_missing :
      (ns n : String) (w w' : S.World)
      → S.get_claim ns n w ≡ (err not_found, w')
      → S.claimed w ns n ≡ none
  pub delete_claimed :
      (g : Gvr) (n uid ns m : String) (w w' : S.World) (r : Result ApiError (Unit {0}))
      → S.delete g n uid w ≡ (r, w')
      → S.claimed w' ns m ≡ S.claimed w ns m
