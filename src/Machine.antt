-- ===== src/Machine.antt =====
-- pkg/component/converge.go: the state machine of a component's condition,
-- `newConvergingStatusCondition`. Its logging is left out.
pub mod Invariant
pub mod Phases
use operator_component_frame.Converge.{
  results_healthy, converge_summary, evaluate_grace, grace_summary,
}
use operator_component_frame.Grace.{grace_expired}
use operator_component_frame.Prelude.{Result, ℕ, Bool, not, ◌||◌, List, if◌then◌else◌, ok, err}
use operator_component_frame.Status.{
  Status, StatusWithReason, is_grace_timed, is_sticky, is_degraded, is_down,
}
use operator_component_frame.Resource.{ReconcileResult}
use operator_component_frame.Condition.{
  Condition, Owner, converging_condition, grace_condition, condition_ready, condition_error,
}

abbrev pub is_grace_failure : Status → Bool
is_grace_failure s = is_down s || is_degraded s

-- the last step of `newConvergingStatusCondition`: the old condition, brought up to date
unfoldable pub carried_condition : Condition → Status → StatusWithReason → ℕ → Condition
carried_condition previous status summary generation = record previous {
  reason = status;
  message = summary.reason;
  observed_generation = generation;
}

module _ {W : Type 0} where
  -- the part of it that runs when the grace period has expired, given the graded results
  unfoldable pub expired_condition :
      Owner → Condition → Condition → Result (List (ReconcileResult W)) → Condition
  expired_condition owner previous carried (err e) =
      condition_error previous.condition_type e owner.generation
  expired_condition owner previous carried (ok graded) =
      let summary = grace_summary graded in
      if is_grace_failure summary.status
      then grace_condition previous.condition_type summary owner.generation
      else carried

  -- `newConvergingStatusCondition`
  unfoldable pub new_converging_status_condition :
      W → Owner → List (ReconcileResult W) → ℕ → Condition → ℕ → Condition
  new_converging_status_condition w owner rs grace_period previous now =
      if results_healthy rs
      then condition_ready previous.condition_type owner.generation
      else (let summary = converge_summary rs in
          if not (is_grace_timed previous.reason)
          then converging_condition previous.condition_type summary owner.generation
          else (let status =
                if is_sticky previous.reason then previous.reason else summary.status in
              let carried = carried_condition previous status summary owner.generation in
              if grace_expired grace_period previous.last_transition_time now
              then expired_condition owner previous carried (evaluate_grace w rs)
              else carried))
