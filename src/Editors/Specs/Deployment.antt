-- ===== src/Editors/Specs/Deployment.antt =====
-- pkg/mutation/editors/deploymentspec.go: the editor of a DeploymentSpec.
use operator_component_frame.Prelude.{ℕ, String, Bool, Option, some}
use operator_component_frame.Pods.{PodTemplate}

-- `appsv1.DeploymentSpec`
pub record DeploymentSpec : Type 0 where
  pub replicas : Option ℕ
  pub paused : Bool
  pub min_ready_seconds : ℕ
  pub revision_history_limit : Option ℕ
  pub progress_deadline_seconds : Option ℕ
  pub template : PodTemplate
  pub other : String

-- `SetReplicas`
unfoldable pub set_replicas : ℕ → DeploymentSpec → DeploymentSpec
set_replicas x s = record s { replicas = some x }

-- `SetPaused`
unfoldable pub set_paused : Bool → DeploymentSpec → DeploymentSpec
set_paused x s = record s { paused = x }

-- `SetMinReadySeconds`
unfoldable pub set_min_ready_seconds : ℕ → DeploymentSpec → DeploymentSpec
set_min_ready_seconds x s = record s { min_ready_seconds = x }

-- `SetRevisionHistoryLimit`
unfoldable pub set_revision_history_limit : ℕ → DeploymentSpec → DeploymentSpec
set_revision_history_limit x s = record s { revision_history_limit = some x }

-- `SetProgressDeadlineSeconds`
unfoldable pub set_progress_deadline_seconds : ℕ → DeploymentSpec → DeploymentSpec
set_progress_deadline_seconds x s = record s { progress_deadline_seconds = some x }
