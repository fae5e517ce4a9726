-- ===== src/Handlers/StatefulSet.antt =====
-- pkg/primitives/statefulset/handlers.go: the status handlers of a StatefulSet.
use operator_component_frame.Prelude.{
  ℕ, ◌-◌, String, not, ◌&&◌, Option, none, some, [], ◌∷◌, concat, ltb, ◌==◌, str_eq, if◌then◌else◌,
}
use operator_component_frame.Status.{Status, StatusWithReason, ConvergingOperation}
use operator_component_frame.Editors.Specs.StatefulSet.{StatefulSetSpec}
use operator_component_frame.Handlers.{
  stale_generation_status, not_ready_status, rollout_status, or_else, pending_or, desired_replicas,
}

-- `appsv1.StatefulSetStatus`
pub record StatefulSetStatus : Type 0 where
  pub observed_generation : ℕ
  pub replicas : ℕ
  pub ready_replicas : ℕ
  pub updated_replicas : ℕ
  pub current_revision : String
  pub update_revision : String

-- `appsv1.StatefulSet`, as its handlers read it
pub record StatefulSet : Type 0 where
  pub generation : ℕ
  pub spec : StatefulSetSpec
  pub status : StatefulSetStatus

module _ (decimal : ℕ → String) where
  abbrev ratio : String → ℕ → ℕ → String → String
  ratio before m n after = concat (before ∷ decimal m ∷ "/" ∷ decimal n ∷ after ∷ [])

  -- the partition of a rolling update, if it is set and not 0
  abbrev partition_of : Option (Option ℕ) → Option ℕ
  partition_of (some (some n)) = if ltb 0 n then some n else none
  partition_of _ = none

  -- the end of `pendingRollout`, for a partition
  unfoldable pub pending_update : StatefulSet → ℕ → Option ℕ → Option String
  pending_update d desired (some partition) =
      let target = desired - partition in
      if ltb d.status.updated_replicas target
      then some (
          ratio "Waiting for partitioned rollout: " d.status.updated_replicas target
            " replicas updated")
      else none
  pending_update d desired none =
      if ltb d.status.updated_replicas desired
      then some
          (ratio "Waiting for rollout: " d.status.updated_replicas desired " replicas updated")
      else if not (str_eq d.status.current_revision d.status.update_revision)
      then some (concat ("Waiting for rollout to revision " ∷ d.status.update_revision ∷ []))
      else none

  -- `pendingRollout`: the reason, if a rollout is pending
  unfoldable pub pending_rollout : StatefulSet → ℕ → Option String
  unfolding pending_update
  pending_rollout d desired =
      if ltb desired d.status.replicas
      then some (ratio "Waiting for scale-down: " d.status.replicas desired " replicas")
      else if str_eq d.spec.update_strategy.strategy_type "OnDelete"
      then none
      else pending_update d desired (partition_of d.spec.update_strategy.rolling_update)

  -- `DefaultConvergingStatusHandler`
  unfoldable pub converging_status : ConvergingOperation → StatefulSet → StatusWithReason
  unfolding stale_generation_status not_ready_status rollout_status desired_replicas pending_rollout
  converging_status op d =
      let desired = desired_replicas d.spec.replicas in
      or_else (stale_generation_status op d.status.observed_generation d.generation "statefulset") (
        if not (d.status.ready_replicas == desired)
        then record {
          status = not_ready_status op;
          reason = ratio "Waiting for replicas: " d.status.ready_replicas desired " ready";
        }
        else pending_or (rollout_status op) (pending_rollout d desired)
            (record { status = Status.healthy; reason = "All replicas are ready" }))

  -- `DefaultGraceStatusHandler`
  unfoldable pub grace_status : StatefulSet → StatusWithReason
  unfolding desired_replicas pending_rollout
  grace_status d =
      let desired = desired_replicas d.spec.replicas in
      if (d.status.ready_replicas == 0) && ltb 0 desired
      then record { status = Status.down; reason = "No replicas are ready" }
      else if ltb d.status.observed_generation d.generation
      then record {
        status = Status.degraded;
        reason = "Waiting for statefulset controller to observe latest spec";
      }
      else if not (d.status.ready_replicas == desired)
      then record { status = Status.degraded; reason = "StatefulSet partially available" }
      else pending_or Status.degraded (pending_rollout d desired)
          (record { status = Status.healthy; reason = "All replicas are ready" })

  -- `DefaultSuspensionStatusHandler`
  unfoldable pub suspension_status : StatefulSet → StatusWithReason
  suspension_status d =
      if d.status.replicas == 0
      then record { status = Status.suspended; reason = "StatefulSet scaled to zero" }
      else record {
        status = Status.suspending;
        reason = concat (
            "Waiting for replicas to scale down, "
            ∷ decimal d.status.replicas
            ∷ " replicas still running."
            ∷ []);
      }
