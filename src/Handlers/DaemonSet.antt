-- ===== src/Handlers/DaemonSet.antt =====
-- pkg/primitives/daemonset/handlers.go: the status handlers of a DaemonSet.
use operator_component_frame.Prelude.{
  ℕ, String, not, ◌&&◌, Option, none, some, [], ◌∷◌, concat, ltb, ◌==◌, str_eq, if◌then◌else◌,
}
use operator_component_frame.Status.{Status, StatusWithReason, ConvergingOperation}
use operator_component_frame.Editors.Specs.DaemonSet.{DaemonSetSpec}
use operator_component_frame.Handlers.{
  stale_generation_status, not_ready_status, rollout_status, or_else, pending_or,
}

-- `appsv1.DaemonSetStatus`
pub record DaemonSetStatus : Type 0 where
  pub observed_generation : ℕ
  pub desired_number_scheduled : ℕ
  pub number_ready : ℕ
  pub updated_number_scheduled : ℕ

-- `appsv1.DaemonSet`, as its handlers read it
pub record DaemonSet : Type 0 where
  pub generation : ℕ
  pub spec : DaemonSetSpec
  pub status : DaemonSetStatus

-- `DefaultSuspensionStatusHandler`
unfoldable pub suspension_status : DaemonSet → StatusWithReason
suspension_status d = record { status = Status.suspended; reason = "DaemonSet deleted on suspend" }

module _ (decimal : ℕ → String) where
  -- `pendingRollout`: the reason, if a rollout is pending
  unfoldable pub pending_rollout : DaemonSet → Option String
  pending_rollout d =
      if str_eq d.spec.update_strategy.strategy_type "OnDelete"
      then none
      else if ltb d.status.updated_number_scheduled d.status.desired_number_scheduled
      then some (
          concat (
            "Waiting for rollout: "
            ∷ decimal d.status.updated_number_scheduled
            ∷ "/"
            ∷ decimal d.status.desired_number_scheduled
            ∷ " pods updated"
            ∷ []))
      else none

  -- `DefaultConvergingStatusHandler`
  unfoldable pub converging_status : ConvergingOperation → DaemonSet → StatusWithReason
  unfolding stale_generation_status not_ready_status rollout_status pending_rollout
  converging_status op d =
      let desired = d.status.desired_number_scheduled in
      or_else (stale_generation_status op d.status.observed_generation d.generation "DaemonSet") (
        if desired == 0
        then record {
          status = Status.healthy;
          reason = "No nodes match the DaemonSet node selector";
        }
        else if not (d.status.number_ready == desired)
        then record {
          status = not_ready_status op;
          reason = concat (
              "Waiting for pods: "
              ∷ decimal d.status.number_ready
              ∷ "/"
              ∷ decimal desired
              ∷ " ready"
              ∷ []);
        }
        else pending_or (rollout_status op) (pending_rollout d)
            (record { status = Status.healthy; reason = "All pods are ready" }))

  -- `DefaultGraceStatusHandler`
  unfoldable pub grace_status : DaemonSet → StatusWithReason
  unfolding pending_rollout
  grace_status d =
      let desired = d.status.desired_number_scheduled in
      if (d.status.number_ready == 0) && ltb 0 desired
      then record { status = Status.down; reason = "No pods are ready" }
      else if ltb d.status.observed_generation d.generation
      then record {
        status = Status.degraded;
        reason = "Waiting for DaemonSet controller to observe latest spec";
      }
      else if desired == 0
      then record { status = Status.healthy; reason = "No nodes match the DaemonSet node selector" }
      else if not (d.status.number_ready == desired)
      then record { status = Status.degraded; reason = "DaemonSet partially available" }
      else pending_or Status.degraded (pending_rollout d)
          (record { status = Status.healthy; reason = "All pods are ready" })
