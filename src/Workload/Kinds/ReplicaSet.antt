-- ===== src/Workload/Kinds/ReplicaSet.antt =====
-- pkg/primitives/replicaset/mutator.go: the plans of a ReplicaSet.
use operator_component_frame.Prelude.{ℕ, refl, Option, some, ok}
use operator_component_frame.Prelude.Results.{◌>>=◌, Edit, run_edits}
use operator_component_frame.Pods.{PodTemplate}
use operator_component_frame.Editors.Specs.ReplicaSet.{ReplicaSetSpec, set_replicas}
use operator_component_frame.Workload.{
  apply_to_template, apply_to_pod_spec, apply_containers, apply_init_containers, apply_presence_ops,
  apply_container_edits,
}
use operator_component_frame.Workload.Mutators.{Kind}
use operator_component_frame.Workload.Kinds.{
  WorkloadObject, FeaturePlan, no_feature_plan, edit_spec, apply_feature_plan,
}

-- an edit of the pod template in the spec
unfoldable pub at_template : Edit PodTemplate → Edit ReplicaSetSpec
at_template edit s = edit s.template >>= λ t. ok (record s { template = t })

-- `EditReplicaSetSpec`
unfoldable pub edit_replica_set_spec :
    Option (Edit ReplicaSetSpec) → FeaturePlan ReplicaSetSpec → FeaturePlan ReplicaSetSpec
unfolding edit_spec
edit_replica_set_spec = edit_spec

-- `EnsureReplicas`
unfoldable pub ensure_replicas : ℕ → FeaturePlan ReplicaSetSpec → FeaturePlan ReplicaSetSpec
unfolding edit_replica_set_spec
ensure_replicas n = edit_replica_set_spec (some (λ s. ok (set_replicas n s)))

-- the body of the loop of `Apply`
unfoldable pub apply_plan : FeaturePlan ReplicaSetSpec → Edit (WorkloadObject ReplicaSetSpec)
unfolding apply_feature_plan at_template
apply_plan = apply_feature_plan at_template

unfoldable pub replica_set_kind : Kind (WorkloadObject ReplicaSetSpec) (FeaturePlan ReplicaSetSpec)
unfolding apply_plan at_template apply_feature_plan apply_to_template apply_to_pod_spec
    apply_containers apply_init_containers apply_presence_ops apply_container_edits run_edits
replica_set_kind = record {
  no_plan = no_feature_plan;
  apply_plan = apply_plan;
  apply_plan-no_plan = λ o. refl;
}
