-- ===== src/Editors/Specs/DaemonSet.antt =====
-- pkg/mutation/editors/daemonsetspec.go: the editor of a DaemonSetSpec.
use operator_component_frame.Prelude.{ℕ, String, Option, some}
use operator_component_frame.Pods.{PodTemplate}

-- `appsv1.DaemonSetUpdateStrategy`
pub record DaemonSetUpdateStrategy : Type 0 where
  pub strategy_type : String
  pub other : String

-- `appsv1.DaemonSetSpec`
pub record DaemonSetSpec : Type 0 where
  pub update_strategy : DaemonSetUpdateStrategy
  pub min_ready_seconds : ℕ
  pub revision_history_limit : Option ℕ
  pub template : PodTemplate
  pub other : String

-- `SetUpdateStrategy`
unfoldable pub set_update_strategy : DaemonSetUpdateStrategy → DaemonSetSpec → DaemonSetSpec
set_update_strategy x s = record s { update_strategy = x }

-- `SetMinReadySeconds`
unfoldable pub set_min_ready_seconds : ℕ → DaemonSetSpec → DaemonSetSpec
set_min_ready_seconds x s = record s { min_ready_seconds = x }

-- `SetRevisionHistoryLimit`
unfoldable pub set_revision_history_limit : ℕ → DaemonSetSpec → DaemonSetSpec
set_revision_history_limit x s = record s { revision_history_limit = some x }
