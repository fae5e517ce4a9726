-- ===== src/Editors/Specs/StatefulSet.antt =====
-- pkg/mutation/editors/statefulsetspec.go: the editor of a StatefulSetSpec.
use operator_component_frame.Prelude.{ℕ, String, Option, some, List}
use operator_component_frame.Pods.{PodTemplate}

-- `corev1.PersistentVolumeClaim`
pub record VolumeClaim : Type 0 where
  pub name : String
  pub other : String

-- `appsv1.StatefulSetUpdateStrategy`; the rolling update and its partition may both be nil
pub record StatefulSetUpdateStrategy : Type 0 where
  pub strategy_type : String
  pub rolling_update : Option (Option ℕ)

-- `appsv1.StatefulSetSpec`
pub record StatefulSetSpec : Type 0 where
  pub replicas : Option ℕ
  pub service_name : String
  pub pod_management_policy : String
  pub update_strategy : StatefulSetUpdateStrategy
  pub revision_history_limit : Option ℕ
  pub min_ready_seconds : ℕ
  pub claim_retention_policy : Option String
  pub template : PodTemplate
  pub volume_claim_templates : List VolumeClaim
  pub other : String

-- `SetReplicas`
unfoldable pub set_replicas : ℕ → StatefulSetSpec → StatefulSetSpec
set_replicas x s = record s { replicas = some x }

-- `SetServiceName`
unfoldable pub set_service_name : String → StatefulSetSpec → StatefulSetSpec
set_service_name x s = record s { service_name = x }

-- `SetPodManagementPolicy`
unfoldable pub set_pod_management_policy : String → StatefulSetSpec → StatefulSetSpec
set_pod_management_policy x s = record s { pod_management_policy = x }

-- `SetUpdateStrategy`
unfoldable pub set_update_strategy : StatefulSetUpdateStrategy → StatefulSetSpec → StatefulSetSpec
set_update_strategy x s = record s { update_strategy = x }

-- `SetRevisionHistoryLimit`
unfoldable pub set_revision_history_limit : ℕ → StatefulSetSpec → StatefulSetSpec
set_revision_history_limit x s = record s { revision_history_limit = some x }

-- `SetMinReadySeconds`
unfoldable pub set_min_ready_seconds : ℕ → StatefulSetSpec → StatefulSetSpec
set_min_ready_seconds x s = record s { min_ready_seconds = x }

-- `SetPersistentVolumeClaimRetentionPolicy`
unfoldable pub set_claim_retention_policy : Option String → StatefulSetSpec → StatefulSetSpec
set_claim_retention_policy x s = record s { claim_retention_policy = x }
