-- ===== src/Driver/Status/Conditions.antt =====
-- `setPodCondition`: one condition of a type, and the time at which its status changed.
use dra_linux_networks.Prelude.{
  String, ◌≡◌, refl, true, false, Option, none, some, List, [], ◌∷◌, arith, ◌==◌, eq_iff,
  if◌then◌else◌, Bool-cases, inl, inr,
}
use dra_linux_networks.Driver.Status.{PodCondition, renewed, set_pod_condition}

-- The first condition of a type.
unfoldable pub condition_of : String → List PodCondition → Option PodCondition
condition_of type [] = none
condition_of type (c ∷ conditions) = elim (c.type == type) [
  | true ↦ some c
  | false ↦ condition_of type conditions
]

-- The time at which the condition came to its status: that of the condition before, if there is
-- one and its status is the same, and otherwise the new one's.
abbrev pub transition_time : Option PodCondition → PodCondition → String
transition_time none new = new.last_transition_time
transition_time (some old) new =
    if old.status == new.status then old.last_transition_time else new.last_transition_time

renewed_lem :
    (old new : PodCondition)
    → renewed old new ≡ record new { last_transition_time = transition_time (some old) new }
unfolding renewed
renewed_lem old new = elim (Bool-cases (old.status == new.status)) [
  | inl same ↦ rw same refl
  | inr differs ↦ rw differs refl
]

renewed-type : (old new : PodCondition) → (renewed old new).type ≡ new.type
unfolding renewed
renewed-type old new = elim (Bool-cases (old.status == new.status)) [
  | inl same ↦ rw same refl
  | inr differs ↦ rw differs refl
]

-- After `setPodCondition` the first condition of its type has the new status, reason, message and
-- probe time; its transition time is that of the condition that was there if that has the new
-- status, and the new one otherwise. The first condition of every other type is the one that was
-- there.
pub condition_of-set_pod_condition :
    (conditions : List PodCondition) (new : PodCondition) (type : String)
    → condition_of type (set_pod_condition conditions new) ≡ (
        if new.type == type
        then some (record new {
          last_transition_time = transition_time (condition_of new.type conditions) new;
        })
        else condition_of type conditions)
unfolding condition_of set_pod_condition
condition_of-set_pod_condition [] new type = ground arith
condition_of-set_pod_condition (c ∷ conditions) new type = ground (
  arith,
  condition_of-set_pod_condition conditions new type,
  renewed_lem c new,
  renewed-type c new,
  eq_iff c.type new.type,
  eq_iff c.type type,
  eq_iff new.type type,
  eq_iff (renewed c new).type type,
)
