-- ===== src/Editors/Specs/Job.antt =====
-- pkg/mutation/editors/jobspec.go: the editor of a JobSpec.
use operator_component_frame.Prelude.{ℕ, String, Bool, Option, some}
use operator_component_frame.Pods.{PodTemplate}

-- `batchv1.JobSpec`
pub record JobSpec : Type 0 where
  pub completions : Option ℕ
  pub parallelism : Option ℕ
  pub backoff_limit : Option ℕ
  pub active_deadline_seconds : Option ℕ
  pub ttl_seconds_after_finished : Option ℕ
  pub completion_mode : Option String
  pub suspend : Option Bool
  pub template : PodTemplate
  pub other : String

-- `SetCompletions`
unfoldable pub set_completions : ℕ → JobSpec → JobSpec
set_completions x s = record s { completions = some x }

-- `SetParallelism`
unfoldable pub set_parallelism : ℕ → JobSpec → JobSpec
set_parallelism x s = record s { parallelism = some x }

-- `SetBackoffLimit`
unfoldable pub set_backoff_limit : ℕ → JobSpec → JobSpec
set_backoff_limit x s = record s { backoff_limit = some x }

-- `SetActiveDeadlineSeconds`
unfoldable pub set_active_deadline_seconds : ℕ → JobSpec → JobSpec
set_active_deadline_seconds x s = record s { active_deadline_seconds = some x }

-- `SetTTLSecondsAfterFinished`
unfoldable pub set_ttl_seconds_after_finished : ℕ → JobSpec → JobSpec
set_ttl_seconds_after_finished x s = record s { ttl_seconds_after_finished = some x }

-- `SetCompletionMode`
unfoldable pub set_completion_mode : String → JobSpec → JobSpec
set_completion_mode x s = record s { completion_mode = some x }
