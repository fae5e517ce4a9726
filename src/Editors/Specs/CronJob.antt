-- ===== src/Editors/Specs/CronJob.antt =====
-- pkg/mutation/editors/cronjobspec.go: the editor of a CronJobSpec.
use operator_component_frame.Prelude.{ℕ, String, Bool, Option, some}
use operator_component_frame.Pods.{ObjectMeta}
use operator_component_frame.Editors.Specs.Job.{JobSpec}

-- `batchv1.JobTemplateSpec`
pub record JobTemplate : Type 0 where
  pub metadata : ObjectMeta
  pub spec : JobSpec

-- `batchv1.CronJobSpec`
pub record CronJobSpec : Type 0 where
  pub schedule : String
  pub concurrency_policy : String
  pub starting_deadline_seconds : Option ℕ
  pub successful_jobs_history_limit : Option ℕ
  pub failed_jobs_history_limit : Option ℕ
  pub time_zone : Option String
  pub suspend : Option Bool
  pub job_template : JobTemplate
  pub other : String

-- `SetSchedule`
unfoldable pub set_schedule : String → CronJobSpec → CronJobSpec
set_schedule x s = record s { schedule = x }

-- `SetConcurrencyPolicy`
unfoldable pub set_concurrency_policy : String → CronJobSpec → CronJobSpec
set_concurrency_policy x s = record s { concurrency_policy = x }

-- `SetStartingDeadlineSeconds`
unfoldable pub set_starting_deadline_seconds : ℕ → CronJobSpec → CronJobSpec
set_starting_deadline_seconds x s = record s { starting_deadline_seconds = some x }

-- `SetSuccessfulJobsHistoryLimit`
unfoldable pub set_successful_jobs_history_limit : ℕ → CronJobSpec → CronJobSpec
set_successful_jobs_history_limit x s = record s { successful_jobs_history_limit = some x }

-- `SetFailedJobsHistoryLimit`
unfoldable pub set_failed_jobs_history_limit : ℕ → CronJobSpec → CronJobSpec
set_failed_jobs_history_limit x s = record s { failed_jobs_history_limit = some x }

-- `SetTimeZone`
unfoldable pub set_time_zone : String → CronJobSpec → CronJobSpec
set_time_zone x s = record s { time_zone = some x }
