-- ===== src/Aggregate.antt =====
-- pkg/component/aggregate.go: one condition of the owner out of those of its components.
pub mod Verdict
use operator_component_frame.Prelude.{
  ℕ, String, Bool, true, false, not, ◌&&◌, Option, none, some, List, [], ◌∷◌, all, concat, ltb,
  str_eq, if◌then◌else◌,
}
use operator_component_frame.Status.{Status, priority}
use operator_component_frame.Condition.{
  Condition, ConditionStatus, Owner, holds, status_of, condition_unknown,
}
use operator_component_frame.Condition.Meta.{MetaApi}

-- The two fields of a component that an aggregation reads.
pub record Member : Type 0 where
  pub name : String
  pub condition_type : String

-- `supersedes`: a condition that is not True goes before one that is; then the priority decides.
unfoldable pub supersedes : Condition → Condition → Bool
unfolding priority
supersedes candidate current =
    let candidate_true = holds candidate.status in
    let current_true = holds current.status in
    if candidate_true
    then (if current_true then ltb (priority current.reason) (priority candidate.reason) else false)
    else (if current_true then true else ltb (priority current.reason) (priority candidate.reason))

-- `aggregateMessage`
unfoldable pub aggregate_message : String → String → String
aggregate_message name message =
    if str_eq message "" then name else concat (name ∷ ": " ∷ message ∷ [])

module _ (meta : MetaApi) where
  -- `Component.GetCondition`
  unfoldable pub get_condition : String → Owner → Condition
  get_condition condition_type owner =
      elim (meta.find_status_condition owner.conditions condition_type) [
        | none ↦ condition_unknown condition_type owner.generation
        | some cond ↦ cond
      ]

  -- The loop of `Aggregate` after its first round: the component that governs, its condition, and
  -- whether all conditions so far are True.
  unfoldable pub aggregate_loop :
      Owner → List Member → Member → Condition → Bool → Member × Condition × Bool
  aggregate_loop owner [] governing cond unanimous = (governing, cond, unanimous)
  aggregate_loop owner (comp ∷ comps) governing cond unanimous =
      let c = get_condition comp.condition_type owner in
      let moves = supersedes c cond in
      aggregate_loop owner comps (if moves then comp else governing) (if moves then c else cond)
        (holds c.status && unanimous)

  -- `Aggregate`
  unfoldable pub aggregate : String → Owner → List Member → Condition
  unfolding aggregate_loop aggregate_message
  aggregate condition_type owner [] = record {
    condition_type = condition_type;
    status = ConditionStatus.is_false;
    reason = Status.unknown;
    message = "No components were aggregated.";
    observed_generation = owner.generation;
    last_transition_time = 0;
  }
  aggregate condition_type owner (comp ∷ comps) =
      let c = get_condition comp.condition_type owner in
      let (governing, cond, unanimous) = aggregate_loop owner comps comp c (holds c.status) in
      record {
        condition_type = condition_type;
        status = status_of unanimous;
        reason = cond.reason;
        message = aggregate_message governing.name cond.message;
        observed_generation = owner.generation;
        last_transition_time = 0;
      }
