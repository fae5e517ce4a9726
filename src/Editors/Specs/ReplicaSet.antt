-- ===== src/Editors/Specs/ReplicaSet.antt =====
-- pkg/mutation/editors/replicasetspec.go: the editor of a ReplicaSetSpec.
use operator_component_frame.Prelude.{ℕ, String, Option, some}
use operator_component_frame.Pods.{PodTemplate}

-- `appsv1.ReplicaSetSpec`
pub record ReplicaSetSpec : Type 0 where
  pub replicas : Option ℕ
  pub min_ready_seconds : ℕ
  pub template : PodTemplate
  pub other : String

-- `SetReplicas`
unfoldable pub set_replicas : ℕ → ReplicaSetSpec → ReplicaSetSpec
set_replicas x s = record s { replicas = some x }

-- `SetMinReadySeconds`
unfoldable pub set_min_ready_seconds : ℕ → ReplicaSetSpec → ReplicaSetSpec
set_min_ready_seconds x s = record s { min_ready_seconds = x }
