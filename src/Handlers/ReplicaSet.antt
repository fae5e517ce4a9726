-- ===== src/Handlers/ReplicaSet.antt =====
-- pkg/primitives/replicaset/handlers.go: the status handlers of a ReplicaSet.
use operator_component_frame.Prelude.{
  ℕ, String, not, ◌&&◌, Option, none, some, [], ◌∷◌, concat, ltb, ◌==◌, if◌then◌else◌,
}
use operator_component_frame.Status.{Status, StatusWithReason, ConvergingOperation}
use operator_component_frame.Editors.Specs.ReplicaSet.{ReplicaSetSpec}
use operator_component_frame.Handlers.{
  stale_generation_status, not_ready_status, rollout_status, or_else, pending_or, desired_replicas,
}

-- `appsv1.ReplicaSetStatus`
pub record ReplicaSetStatus : Type 0 where
  pub observed_generation : ℕ
  pub replicas : ℕ
  pub ready_replicas : ℕ

-- `appsv1.ReplicaSet`, as its handlers read it
pub record ReplicaSet : Type 0 where
  pub generation : ℕ
  pub spec : ReplicaSetSpec
  pub status : ReplicaSetStatus

module _ (decimal : ℕ → String) where
  abbrev ratio : String → ℕ → ℕ → String → String
  ratio before m n after = concat (before ∷ decimal m ∷ "/" ∷ decimal n ∷ after ∷ [])

  -- `pendingScaleDown`: the reason, if a scale-down is pending
  unfoldable pub pending_scale_down : ReplicaSet → ℕ → Option String
  pending_scale_down d desired =
      if ltb desired d.status.replicas
      then some (ratio "Waiting for scale-down: " d.status.replicas desired " replicas")
      else none

  -- `DefaultConvergingStatusHandler`
  unfoldable pub converging_status : ConvergingOperation → ReplicaSet → StatusWithReason
  unfolding stale_generation_status not_ready_status rollout_status desired_replicas
      pending_scale_down
  converging_status op d =
      let desired = desired_replicas d.spec.replicas in
      or_else (stale_generation_status op d.status.observed_generation d.generation "replicaset") (
        if not (d.status.ready_replicas == desired)
        then record {
          status = not_ready_status op;
          reason = ratio "Waiting for replicas: " d.status.ready_replicas desired " ready";
        }
        else pending_or (rollout_status op) (pending_scale_down d desired)
            (record { status = Status.healthy; reason = "All replicas are ready" }))

  -- `DefaultGraceStatusHandler`
  unfoldable pub grace_status : ReplicaSet → StatusWithReason
  unfolding desired_replicas pending_scale_down
  grace_status d =
      let desired = desired_replicas d.spec.replicas in
      if (d.status.ready_replicas == 0) && ltb 0 desired
      then record { status = Status.down; reason = "No replicas are ready" }
      else if ltb d.status.observed_generation d.generation
      then record {
        status = Status.degraded;
        reason = "Waiting for replicaset controller to observe latest spec";
      }
      else if not (d.status.ready_replicas == desired)
      then record { status = Status.degraded; reason = "ReplicaSet partially available" }
      else pending_or Status.degraded (pending_scale_down d desired)
          (record { status = Status.healthy; reason = "All replicas are ready" })

  -- `DefaultSuspensionStatusHandler`
  unfoldable pub suspension_status : ReplicaSet → StatusWithReason
  suspension_status d =
      if d.status.replicas == 0
      then record { status = Status.suspended; reason = "ReplicaSet scaled to zero" }
      else record {
        status = Status.suspending;
        reason = concat (
            "Waiting for replicas to scale down, "
            ∷ decimal d.status.replicas
            ∷ " replicas still running."
            ∷ []);
      }
