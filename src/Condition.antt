-- ===== src/Condition.antt =====
-- pkg/component/conditions.go: the conditions that a component reports on its owner.
--
-- A condition of the owner is a record with the fields of `metav1.Condition`. Times are numbers of
-- nanoseconds, 0 is Go's zero time. The owner is what `OperatorCRD` gives: its kind, its metadata
-- and its status conditions.
pub mod Meta
use operator_component_frame.Prelude.{
  ℕ, String, Bool, true, false, Option, none, some, List, [], ◌∷◌, Error, concat, str_eq,
  if◌then◌else◌, ◌==◌,
}
use operator_component_frame.Status.{
  Status, StatusWithReason, is_healthy, is_suspended, is_degraded,
}

-- `metav1.ConditionStatus`
pub data ConditionStatus : Type 0 where
  is_true is_false is_unknown : ConditionStatus

pub record Condition : Type 0 where
  pub condition_type : String
  pub status : ConditionStatus
  pub reason : Status
  pub message : String
  pub observed_generation : ℕ
  pub last_transition_time : ℕ

pub record Owner : Type 0 where
  pub kind : String
  pub namespace : String
  pub name : String
  pub uid : String
  pub generation : ℕ
  pub conditions : List Condition

-- `cond.Status == metav1.ConditionTrue`
abbrev pub holds : ConditionStatus → Bool
holds ConditionStatus.is_true = true
holds _ = false

abbrev pub status_of : Bool → ConditionStatus
status_of b = if b then ConditionStatus.is_true else ConditionStatus.is_false

-- `convergingCondition`
unfoldable pub converging_condition : String → StatusWithReason → ℕ → Condition
converging_condition component converging generation = record {
  condition_type = component;
  status = status_of (is_healthy converging.status);
  reason = converging.status;
  message = converging.reason;
  observed_generation = generation;
  last_transition_time = 0;
}

-- `suspendingCondition`
unfoldable pub suspending_condition : String → StatusWithReason → ℕ → Condition
suspending_condition component suspending generation = record {
  condition_type = component;
  status = status_of (is_suspended suspending.status);
  reason = suspending.status;
  message = suspending.reason;
  observed_generation = generation;
  last_transition_time = 0;
}

-- `graceCondition`
unfoldable pub grace_condition : String → StatusWithReason → ℕ → Condition
grace_condition component gracing generation = record {
  condition_type = component;
  status = ConditionStatus.is_false;
  reason = gracing.status;
  message = concat (
      (if is_degraded gracing.status then "Component is degraded: " else "Component is down: ")
      ∷ gracing.reason
      ∷ []);
  observed_generation = generation;
  last_transition_time = 0;
}

-- `conditionReady`
unfoldable pub condition_ready : String → ℕ → Condition
condition_ready component generation = record {
  condition_type = component;
  status = ConditionStatus.is_true;
  reason = Status.healthy;
  message = "Component is healthy.";
  observed_generation = generation;
  last_transition_time = 0;
}

-- `conditionError`
unfoldable pub condition_error : String → Error → ℕ → Condition
condition_error component e generation = record {
  condition_type = component;
  status = ConditionStatus.is_false;
  reason = Status.error;
  message = e.message;
  observed_generation = generation;
  last_transition_time = 0;
}

-- `conditionFeatureGateError`
unfoldable pub condition_feature_gate_error : String → Error → ℕ → Condition
condition_feature_gate_error component e generation = record {
  condition_type = component;
  status = ConditionStatus.is_false;
  reason = Status.feature_gate_error;
  message = e.message;
  observed_generation = generation;
  last_transition_time = 0;
}

-- `conditionDisabled`
unfoldable pub condition_disabled : String → ℕ → Condition
condition_disabled component generation = record {
  condition_type = component;
  status = ConditionStatus.is_true;
  reason = Status.disabled;
  message = "Component is disabled.";
  observed_generation = generation;
  last_transition_time = 0;
}

-- `conditionPrerequisiteNotMet`
unfoldable pub condition_prerequisite_not_met : String → String → ℕ → Condition
condition_prerequisite_not_met component reason generation = record {
  condition_type = component;
  status = ConditionStatus.is_false;
  reason = Status.prerequisite_not_met;
  message = reason;
  observed_generation = generation;
  last_transition_time = 0;
}

-- `conditionUnknown`
unfoldable pub condition_unknown : String → ℕ → Condition
condition_unknown component generation = record {
  condition_type = component;
  status = ConditionStatus.is_false;
  reason = Status.unknown;
  message = "Component has not been reconciled yet.";
  observed_generation = generation;
  last_transition_time = 0;
}

-- `replaceStatusCondition`: set by type, the value taken verbatim
unfoldable pub replace_status_condition : List Condition → Condition → List Condition
replace_status_condition [] cond = cond ∷ []
replace_status_condition (c ∷ conditions) cond =
    let rest = replace_status_condition conditions cond in
    if str_eq c.condition_type cond.condition_type then cond ∷ conditions else c ∷ rest
