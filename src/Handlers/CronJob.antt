-- ===== src/Handlers/CronJob.antt =====
-- pkg/primitives/cronjob/handlers.go: the status handlers of a CronJob.
use operator_component_frame.Prelude.{
  ℕ, String, true, some, [], ◌∷◌, Result, ok, concat, ltb, if◌then◌else◌,
}
use operator_component_frame.Status.{Status, StatusWithReason, ConvergingOperation}
use operator_component_frame.Editors.Specs.CronJob.{CronJobSpec}
use operator_component_frame.Workload.Mutators.{Mutator, planned}
use operator_component_frame.Workload.Kinds.{WorkloadObject}
use operator_component_frame.Workload.Kinds.CronJob.{CronJobPlan, edit_cron_job_spec}
use operator_component_frame.Handlers.Job.{is_suspended}

-- `batchv1.CronJob`, as its handlers read it: `active` is the number of its active jobs
pub record CronJob : Type 0 where
  pub spec : CronJobSpec
  pub active : ℕ

-- `DefaultOperationalStatusHandler`
unfoldable pub operational_status : ConvergingOperation → CronJob → StatusWithReason
operational_status op c = record {
  status = Status.operational;
  reason = "CronJob is a passive scheduler and is considered operational once it exists";
}

-- `DefaultGraceStatusHandler`
unfoldable pub grace_status : CronJob → StatusWithReason
grace_status c = record {
  status = Status.healthy;
  reason = "CronJob is a passive scheduler and is considered healthy once it exists";
}

-- `DefaultSuspendMutationHandler`
unfoldable pub suspend_cron_job :
    Mutator (WorkloadObject CronJobSpec) CronJobPlan
    → Result (Mutator (WorkloadObject CronJobSpec) CronJobPlan)
unfolding edit_cron_job_spec planned
suspend_cron_job m =
    ok (planned (edit_cron_job_spec (some (λ s. ok (record s { suspend = some true })))) m)

-- `DefaultSuspensionStatusHandler`
unfoldable pub suspension_status : (ℕ → String) → CronJob → StatusWithReason
suspension_status decimal c =
    if is_suspended c.spec.suspend
    then (if ltb 0 c.active
        then record {
          status = Status.suspending;
          reason =
              concat
                ("CronJob suspended but " ∷ decimal c.active ∷ " active jobs still running" ∷ []);
        }
        else record { status = Status.suspended; reason = "CronJob suspended" })
    else record { status = Status.suspending; reason = "Waiting for suspend flag to be applied" }
