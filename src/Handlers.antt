-- ===== src/Handlers.antt =====
-- The default status handlers of the workload primitives, in pkg/primitives/*/handlers.go.
--
-- The handlers never return an error. Numbers of replicas and generations are natural numbers;
-- `decimal` is how `%d` prints one.
pub mod Deployment
pub mod StatefulSet
pub mod ReplicaSet
pub mod DaemonSet
pub mod Pod
pub mod Job
pub mod CronJob
pub mod Agreement
pub mod Suspension
use operator_component_frame.Prelude.{
  ℕ, String, Option, none, some, [], ◌∷◌, concat, if◌then◌else◌, leb,
}
use operator_component_frame.Status.{Status, StatusWithReason, ConvergingOperation}

-- the status of a workload whose controller has not seen the latest spec
unfoldable pub stale_status : ConvergingOperation → Status
stale_status ConvergingOperation.created = Status.creating
stale_status _ = Status.updating

-- `StaleGenerationStatus`
unfoldable pub stale_generation_status :
    ConvergingOperation → (observed_generation generation : ℕ) → String → Option StatusWithReason
unfolding stale_status
stale_generation_status op observed_generation generation resource_kind =
    if leb generation observed_generation
    then none
    else some (record {
      status = stale_status op;
      reason = concat ("Waiting for " ∷ resource_kind ∷ " controller to observe latest spec" ∷ []);
    })

-- the status of a workload that does not have as many ready replicas as it wants
unfoldable pub not_ready_status : ConvergingOperation → Status
not_ready_status ConvergingOperation.created = Status.creating
not_ready_status ConvergingOperation.updated = Status.updating
not_ready_status ConvergingOperation.none_op = Status.scaling

-- the status of a workload whose rollout is pending
unfoldable pub rollout_status : ConvergingOperation → Status
rollout_status ConvergingOperation.created = Status.creating
rollout_status _ = Status.updating

-- an early return, or what follows it
abbrev pub or_else : Option StatusWithReason → StatusWithReason → StatusWithReason
or_else (some early) rest = early
or_else none rest = rest

-- the return for a pending rollout, or what follows it
abbrev pub pending_or : Status → Option String → StatusWithReason → StatusWithReason
pending_or status (some reason) rest = record { status = status; reason = reason }
pending_or status none rest = rest

-- `desiredReplicas`, for the replicas of a spec
unfoldable pub desired_replicas : Option ℕ → ℕ
desired_replicas none = 1
desired_replicas (some replicas) = replicas
