-- ===== src/Controller.antt =====
-- internal/controller/controller.go: the controller that removes the records of claims that are
-- gone, and reports the numbers of addresses in use. `Run` calls `Reconcile` at each tick.
pub mod Counts
pub mod Live
use dra_linux_networks.Prelude.{
  ℕ, ◌+◌, String, Bool, true, false, not, ◌&&◌, ◌||◌, Option, none, some, List, [], ◌∷◌, ◌==◌,
  if◌then◌else◌, Result, ok, err,
}
use dra_linux_networks.Prelude.Dict.{Dict, lookup, insert}
use dra_linux_networks.Kube.{
  Value, number, text, array, object, Items, no_items, item, Fields, no_fields, field, field_of,
  Accessors, Gvr, ip_pools, ip_allocations, ApiError, is_not_found, Claim, Server,
}
use dra_linux_networks.IpamApi.{ObjectReference, Allocation, ParseError, parse_allocation}

pub data ControllerError : Type 0 where
  list_allocations list_pools : ApiError → ControllerError
  get_claim_failed delete_failed update_failed : String → ApiError → ControllerError
  set_failed : String → ControllerError

pub record PoolCounts : Type 0 where
  pub total : ℕ
  pub dynamic : ℕ
  pub static : ℕ

-- `counts[pool]`, zero if it is missing.
abbrev pub counts_of : Option PoolCounts → PoolCounts
counts_of none = record { total = 0; dynamic = 0; static = 0 }
counts_of (some c) = c

abbrev bump : Bool → PoolCounts → PoolCounts
bump true c = record c { total = c.total + 1; static = c.static + 1 }
bump false c = record c { total = c.total + 1; dynamic = c.dynamic + 1 }

add_count : Allocation → Dict PoolCounts → Dict PoolCounts
add_count a counts =
    insert a.pool (bump (a.allocation_type == "Static") (counts_of (lookup a.pool counts))) counts

module _ (A : Accessors) (S : Server) where
  open A use {get_name, get_uid}

  judge_claim : Allocation → Result ApiError Claim × S.World → Result ControllerError Bool × S.World
  judge_claim a (ok claim, w) = (ok (not (claim.uid == a.claim.uid)), w)
  judge_claim a (err e, w) =
      (if is_not_found e then ok true else err (get_claim_failed a.claim.name e), w)

  unfoldable pub allocation_is_stale : Allocation → S.World → Result ControllerError Bool × S.World
  unfolding judge_claim
  allocation_is_stale a w = judge_claim a (S.get_claim a.claim.namespace a.claim.name w)

  unfoldable pub judge_delete :
      Fields → Result ApiError (Unit {0}) × S.World → Result ControllerError (Unit {0}) × S.World
  judge_delete o (ok u, w) = (ok tt, w)
  judge_delete o (err e, w) =
      (if is_not_found e then ok tt else err (delete_failed (get_name o) e), w)

  unfoldable pub delete_allocation : Fields → S.World → Result ControllerError (Unit {0}) × S.World
  unfolding judge_delete
  delete_allocation o w = judge_delete o (S.delete ip_allocations (get_name o) (get_uid o) w)

  -- The loop of `Reconcile`.
  unfoldable pub reconcile_items :
      List Fields → Dict PoolCounts → S.World → Result ControllerError (Dict PoolCounts) × S.World
  unfolding add_count
  reconcile_items [] counts w = (ok counts, w)
  reconcile_items (o ∷ items) counts w = elim (parse_allocation A o) [
    | err e ↦ reconcile_items items counts w
    | ok a ↦
        let (stale, w') = allocation_is_stale a w in
        elim stale [
          | err e ↦ (err e, w')
          | ok true ↦
              let (deleted, w'') = delete_allocation o w' in
              elim deleted [ err e ↦ (err e, w'') | ok u ↦ reconcile_items items counts w'' ]
          | ok false ↦ reconcile_items items (add_count a counts) w'
        ]
  ]

-- `condition["k"] == s` of a condition.
has_text : String → String → Fields → Bool
has_text k s condition = elim (field_of k condition) [ some (text t) ↦ t == s | _ ↦ false ]

-- The time of the first condition that is Ready, True and has one.
ready_time : Items → Option String
unfolding has_text
ready_time no_items = none
ready_time (item (object condition) rest) =
    let later = ready_time rest in
    if has_text "type" "Ready" condition && has_text "status" "True" condition
    then (elim (field_of "lastTransitionTime" condition) [
      | some (text t) ↦ if t == "" then later else some t
      | _ ↦ later
    ])
    else later
ready_time (item _ rest) = ready_time rest

-- `now` is the text of the present time.
unfoldable pub transition_time : Accessors → String → Fields → String
unfolding ready_time
transition_time A now pool = elim (A.nested_slice pool ("status" ∷ "conditions" ∷ [])) [
  | none ↦ now
  | some conditions ↦ elim (ready_time conditions) [ none ↦ now | some t ↦ t ]
]

pub status_of : Accessors → String → PoolCounts → Fields → Fields
status_of A now count pool = field "allocated" (number count.total) (
    field "dynamicAllocated" (number count.dynamic) (
      field "staticAllocated" (number count.static) (
        field "conditions"
          (array (
            item
              (object (
                field "type" (text "Ready") (
                  field "status" (text "True") (
                    field "observedGeneration" (number (A.get_generation pool)) (
                      field "lastTransitionTime" (text (transition_time A now pool)) (
                        field "reason" (text "Reconciled")
                          (field "message" (text "IP allocations are reconciled") no_fields)))))))
              no_items))
          no_fields)))

-- `reflect.DeepEqual` of the current status, if there is one, and the new one, and
-- `unstructured.SetNestedMap` of the status.
pub record StatusTools : Type 0 where
  pub deep_equal : Option Fields → Fields → Bool
  pub set_status : Fields → Fields → Option Fields

module _ (A : Accessors) (S : Server) (T : StatusTools) (now : String) where
  open A use {get_name, nested_map}

  update_statuses :
      List Fields → Dict PoolCounts → S.World → Result ControllerError (Unit {0}) × S.World
  unfolding status_of
  update_statuses [] counts w = (ok tt, w)
  update_statuses (pool ∷ pools) counts w =
      let status = status_of A now (counts_of (lookup (get_name pool) counts)) pool in
      elim (T.deep_equal (nested_map pool ("status" ∷ [])) status) [
        | true ↦ update_statuses pools counts w
        | false ↦ elim (T.set_status pool status) [
          | none ↦ (err (set_failed (get_name pool)), w)
          | some pool' ↦
              let (r, w') = S.update_status ip_pools pool' w in
              elim r [
                | err e ↦ (err (update_failed (get_name pool) e), w')
                | ok o ↦ update_statuses pools counts w'
              ]
        ]
      ]

  after_pools :
      Dict PoolCounts
      → Result ApiError (List Fields) × S.World
      → Result ControllerError (Unit {0}) × S.World
  unfolding update_statuses
  after_pools counts (err e, w) = (err (list_pools e), w)
  after_pools counts (ok pools, w) = update_statuses pools counts w

  unfoldable pub update_pool_statuses :
      Dict PoolCounts → S.World → Result ControllerError (Unit {0}) × S.World
  unfolding after_pools
  update_pool_statuses counts w = after_pools counts (S.list ip_pools w)

  unfoldable pub reconcile : S.World → Result ControllerError (Unit {0}) × S.World
  unfolding reconcile_items
  reconcile w =
      let (r, w') = S.list ip_allocations w in
      elim r [
        | err e ↦ (err (list_allocations e), w')
        | ok items ↦
            let (counted, w'') = reconcile_items A S items [] w' in
            elim counted [ err e ↦ (err e, w'') | ok counts ↦ update_pool_statuses counts w'' ]
      ]
