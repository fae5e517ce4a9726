-- ===== src/Handlers/Job.antt =====
-- pkg/primitives/job/handlers.go: the status handlers of a Job.
use operator_component_frame.Prelude.{
  ℕ, String, Bool, true, false, ◌&&◌, Option, none, some, List, [], ◌∷◌, Result, ok, concat, str_eq,
  ltb, ◌==◌, if◌then◌else◌,
}
use operator_component_frame.Status.{Status, StatusWithReason, ConvergingOperation}
use operator_component_frame.Condition.{ConditionStatus, holds}
use operator_component_frame.Editors.Specs.Job.{JobSpec}
use operator_component_frame.Workload.Mutators.{Mutator, planned}
use operator_component_frame.Workload.Kinds.{WorkloadObject, FeaturePlan}
use operator_component_frame.Workload.Kinds.Job.{edit_job_spec}
use operator_component_frame.Handlers.{or_else}

-- `batchv1.JobCondition`
pub record JobCondition : Type 0 where
  pub condition_type : String
  pub status : ConditionStatus
  pub reason : String
  pub message : String

-- `batchv1.Job`, as its handlers read it
pub record Job : Type 0 where
  pub spec : JobSpec
  pub conditions : List JobCondition
  pub active : ℕ

-- the reason for a failed job
unfoldable pub failure_reason : JobCondition → String
failure_reason c =
    if str_eq c.message ""
    then (if str_eq c.reason "" then "Job failed" else concat ("Job failed: " ∷ c.reason ∷ []))
    else concat ("Job failed: " ∷ c.message ∷ [])

-- the loop of `DefaultConvergingStatusHandler`: the first condition that ends the job
unfoldable pub ending : List JobCondition → Option StatusWithReason
unfolding failure_reason
ending [] = none
ending (c ∷ cs) =
    let rest = ending cs in
    if str_eq c.condition_type "Complete" && holds c.status
    then some (record { status = Status.completed; reason = "Job completed successfully" })
    else if str_eq c.condition_type "Failed" && holds c.status
    then some (record { status = Status.completion_failing; reason = failure_reason c })
    else rest

-- the reason for a job that has no pods
unfoldable pub waiting_reason : ConvergingOperation → String
waiting_reason ConvergingOperation.created =
    "Job was just created, waiting for pods to be scheduled"
waiting_reason _ = "Job is waiting for pods to be scheduled"

-- whether the suspend field is set and true
abbrev pub is_suspended : Option Bool → Bool
is_suspended none = false
is_suspended (some b) = b

-- `DefaultSuspendMutationHandler`
unfoldable pub suspend_job :
    Mutator (WorkloadObject JobSpec) (FeaturePlan JobSpec)
    → Result (Mutator (WorkloadObject JobSpec) (FeaturePlan JobSpec))
unfolding edit_job_spec planned
suspend_job m = ok (planned (edit_job_spec (some (λ s. ok (record s { suspend = some true })))) m)

module _ (decimal : ℕ → String) where
  -- `DefaultConvergingStatusHandler`
  unfoldable pub converging_status : ConvergingOperation → Job → StatusWithReason
  unfolding ending waiting_reason
  converging_status op job = or_else (ending job.conditions) (
      if ltb 0 job.active
      then record {
        status = Status.completion_running;
        reason = concat ("Job has " ∷ decimal job.active ∷ " active pod(s)" ∷ []);
      }
      else record { status = Status.completion_pending; reason = waiting_reason op })

  -- `DefaultSuspensionStatusHandler`
  unfoldable pub suspension_status : Job → StatusWithReason
  suspension_status job =
      if is_suspended job.spec.suspend
      then (if job.active == 0
          then record { status = Status.suspended; reason = "Job is suspended" }
          else record {
            status = Status.suspending;
            reason =
                concat ("Job is suspending, " ∷ decimal job.active ∷ " pod(s) still active" ∷ []);
          })
      else record {
        status = Status.suspending;
        reason = "Waiting for Job suspend field to be applied";
      }
