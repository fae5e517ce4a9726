-- ===== src/Handlers/Agreement.antt =====
-- The converging handlers and the grace handlers of the workloads, compared.
use operator_component_frame.Prelude.{
  ℕ, String, ◌≡◌, refl, ◌↔◌, true, false, none, List, [], ◌∷◌, arith, str_eq, eq_iff, ◌⊎◌,
}
use operator_component_frame.Status.{Status, StatusWithReason, ConvergingOperation}
use operator_component_frame.Handlers.{
  stale_generation_status, stale_status, not_ready_status, rollout_status, or_else,
}
use operator_component_frame.Handlers.Deployment
use operator_component_frame.Handlers.Deployment.{Deployment}
use operator_component_frame.Handlers.StatefulSet
use operator_component_frame.Handlers.StatefulSet.{StatefulSet}
use operator_component_frame.Handlers.ReplicaSet
use operator_component_frame.Handlers.ReplicaSet.{ReplicaSet}
use operator_component_frame.Handlers.DaemonSet
use operator_component_frame.Handlers.DaemonSet.{DaemonSet}
use operator_component_frame.Handlers.Pod
use operator_component_frame.Handlers.Pod.{
  Pod, failing_container, running_status, grace_running, all_ready,
}

-- a workload with replicas or pods of its own
pub data Workload : Type 0 where
  deployment : Deployment → Workload
  stateful_set : StatefulSet → Workload
  replica_set : ReplicaSet → Workload
  daemon_set : DaemonSet → Workload

module _ (decimal : ℕ → String) where
  abbrev pub converging_status : ConvergingOperation → Workload → Status
  converging_status op (Workload.deployment d) = (Deployment.converging_status decimal op d).status
  converging_status op (Workload.stateful_set d) =
      (StatefulSet.converging_status decimal op d).status
  converging_status op (Workload.replica_set d) = (ReplicaSet.converging_status decimal op d).status
  converging_status op (Workload.daemon_set d) = (DaemonSet.converging_status decimal op d).status

  abbrev pub grace_status : Workload → Status
  grace_status (Workload.deployment d) = (Deployment.grace_status decimal d).status
  grace_status (Workload.stateful_set d) = (StatefulSet.grace_status decimal d).status
  grace_status (Workload.replica_set d) = (ReplicaSet.grace_status decimal d).status
  grace_status (Workload.daemon_set d) = (DaemonSet.grace_status decimal d).status

  deployment_agrees :
      (op : ConvergingOperation) (d : Deployment)
      → (((Deployment.converging_status decimal op d).status ≡ Status.healthy)
          ↔ ((Deployment.grace_status decimal d).status ≡ Status.healthy))
  unfolding Deployment.converging_status Deployment.grace_status stale_generation_status
      not_ready_status rollout_status stale_status
  deployment_agrees op d = ground arith

  stateful_set_agrees :
      (op : ConvergingOperation) (d : StatefulSet)
      → (((StatefulSet.converging_status decimal op d).status ≡ Status.healthy)
          ↔ ((StatefulSet.grace_status decimal d).status ≡ Status.healthy))
  unfolding StatefulSet.converging_status StatefulSet.grace_status stale_generation_status
      not_ready_status rollout_status stale_status
  stateful_set_agrees op d = ground arith

  replica_set_agrees :
      (op : ConvergingOperation) (d : ReplicaSet)
      → (((ReplicaSet.converging_status decimal op d).status ≡ Status.healthy)
          ↔ ((ReplicaSet.grace_status decimal d).status ≡ Status.healthy))
  unfolding ReplicaSet.converging_status ReplicaSet.grace_status stale_generation_status
      not_ready_status rollout_status stale_status
  replica_set_agrees op d = ground arith

  daemon_set_agrees :
      (op : ConvergingOperation) (d : DaemonSet)
      → (((DaemonSet.converging_status decimal op d).status ≡ Status.healthy)
          ↔ ((DaemonSet.grace_status decimal d).status ≡ Status.healthy))
  unfolding DaemonSet.converging_status DaemonSet.grace_status stale_generation_status
      not_ready_status rollout_status stale_status
  daemon_set_agrees op d = ground arith

  -- A Deployment, StatefulSet, ReplicaSet or DaemonSet is Healthy for the converging handler, whatever
  -- operation the reconcile ended in, just when it is Healthy for the grace handler: the grace period
  -- never ends in a verdict that contradicts the converging status.
  pub converging_status-grace_status :
      (op : ConvergingOperation) (w : Workload)
      → (converging_status op w ≡ Status.healthy) ↔ (grace_status w ≡ Status.healthy)
  converging_status-grace_status op (Workload.deployment d) = deployment_agrees op d
  converging_status-grace_status op (Workload.stateful_set d) = stateful_set_agrees op d
  converging_status-grace_status op (Workload.replica_set d) = replica_set_agrees op d
  converging_status-grace_status op (Workload.daemon_set d) = daemon_set_agrees op d

exclusive : (p a b : String) → str_eq a b ≡ false → str_eq p a ≡ true → str_eq p b ≡ false
exclusive p a b h k = let same : p ≡ a = ground (arith, k, eq_iff p a) in rw same h

running_agrees :
    (css : List Pod.ContainerStatus) (status : StatusWithReason)
    → ((or_else (running_status css) status).status ≡ Status.healthy) ↔ (
        ((grace_running css).status ≡ Status.healthy)
        ⊎ ((running_status css ≡ none) × (status.status ≡ Status.healthy)))
unfolding running_status grace_running all_ready
running_agrees [] status = ground arith
running_agrees (cs ∷ css) status = ground arith

-- A Pod without a failing container is Healthy for the converging handler just when it is Healthy for the
-- grace handler or has Succeeded; in the second case the grace handler says Down.
pub converging_status-pod_grace :
    (op : ConvergingOperation) (pod : Pod)
    → failing_container pod.container_statuses ≡ none
    → (((Pod.converging_status op pod).status ≡ Status.healthy)
        ↔ (((Pod.grace_status pod).status ≡ Status.healthy) ⊎ (pod.phase ≡ "Succeeded")))
      × (pod.phase ≡ "Succeeded" → (Pod.grace_status pod).status ≡ Status.down)
unfolding Pod.converging_status Pod.grace_status Pod.ended_status Pod.starting_status
converging_status-pod_grace op pod h = rw h (
    ground (
      arith,
      eq_iff pod.phase "Running",
      eq_iff pod.phase "Succeeded",
      eq_iff pod.phase "Failed",
      exclusive pod.phase "Running" "Succeeded" refl,
      exclusive pod.phase "Running" "Failed" refl,
      exclusive pod.phase "Succeeded" "Failed" refl,
      running_agrees pod.container_statuses
          (or_else (Pod.ended_status pod.phase) (Pod.starting_status op pod.phase)),
    ))
