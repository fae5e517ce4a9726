-- ===== src/Handlers/Deployment.antt =====
-- pkg/primitives/deployment/handlers.go: the status handlers of a Deployment.
use operator_component_frame.Prelude.{
  ℕ, ◌-◌, String, not, ◌&&◌, Option, none, some, [], ◌∷◌, concat, ltb, ◌==◌, if◌then◌else◌,
}
use operator_component_frame.Status.{Status, StatusWithReason, ConvergingOperation}
use operator_component_frame.Editors.Specs.Deployment.{DeploymentSpec}
use operator_component_frame.Handlers.{
  stale_generation_status, not_ready_status, rollout_status, or_else, pending_or, desired_replicas,
}

-- `appsv1.DeploymentStatus`
pub record DeploymentStatus : Type 0 where
  pub observed_generation : ℕ
  pub replicas : ℕ
  pub ready_replicas : ℕ
  pub updated_replicas : ℕ

-- `appsv1.Deployment`, as its handlers read it
pub record Deployment : Type 0 where
  pub generation : ℕ
  pub spec : DeploymentSpec
  pub status : DeploymentStatus

module _ (decimal : ℕ → String) where
  abbrev ratio : String → ℕ → ℕ → String → String
  ratio before m n after = concat (before ∷ decimal m ∷ "/" ∷ decimal n ∷ after ∷ [])

  -- `pendingRollout`: the reason, if a rollout is pending
  unfoldable pub pending_rollout : Deployment → ℕ → Option String
  pending_rollout d desired =
      if d.spec.paused
      then (if ltb desired d.status.replicas
          then some (ratio "Waiting for scale-down: " d.status.replicas desired " replicas")
          else none)
      else if ltb d.status.updated_replicas desired
      then some
          (ratio "Waiting for rollout: " d.status.updated_replicas desired " replicas updated")
      else if ltb desired d.status.updated_replicas
      then some (ratio "Waiting for scale-down: " d.status.updated_replicas desired " replicas")
      else if ltb d.status.updated_replicas d.status.replicas
      then some (
          concat (
            "Waiting for rollout: "
            ∷ decimal (d.status.replicas - d.status.updated_replicas)
            ∷ " old replicas pending termination"
            ∷ []))
      else none

  -- `DefaultConvergingStatusHandler`
  unfoldable pub converging_status : ConvergingOperation → Deployment → StatusWithReason
  unfolding stale_generation_status not_ready_status rollout_status desired_replicas pending_rollout
  converging_status op d =
      let desired = desired_replicas d.spec.replicas in
      or_else (stale_generation_status op d.status.observed_generation d.generation "deployment") (
        if not (d.status.ready_replicas == desired)
        then record {
          status = not_ready_status op;
          reason = ratio "Waiting for replicas: " d.status.ready_replicas desired " ready";
        }
        else pending_or (rollout_status op) (pending_rollout d desired)
            (record { status = Status.healthy; reason = "All replicas are ready" }))

  -- `DefaultGraceStatusHandler`
  unfoldable pub grace_status : Deployment → StatusWithReason
  unfolding desired_replicas pending_rollout
  grace_status d =
      let desired = desired_replicas d.spec.replicas in
      if (d.status.ready_replicas == 0) && ltb 0 desired
      then record { status = Status.down; reason = "No replicas are ready" }
      else if ltb d.status.observed_generation d.generation
      then record {
        status = Status.degraded;
        reason = "Waiting for deployment controller to observe latest spec";
      }
      else if not (d.status.ready_replicas == desired)
      then record { status = Status.degraded; reason = "Deployment partially available" }
      else pending_or Status.degraded (pending_rollout d desired)
          (record { status = Status.healthy; reason = "All replicas are ready" })

  -- `DefaultSuspensionStatusHandler`
  unfoldable pub suspension_status : Deployment → StatusWithReason
  suspension_status d =
      if d.status.replicas == 0
      then record { status = Status.suspended; reason = "Deployment scaled to zero" }
      else record {
        status = Status.suspending;
        reason = concat (
            "Waiting for replicas to scale down, "
            ∷ decimal d.status.replicas
            ∷ " replicas still running."
            ∷ []);
      }
