-- ===== src/Workload/Kinds/DaemonSet.antt =====
-- pkg/primitives/daemonset/mutator.go: the plans of a DaemonSet.
use operator_component_frame.Prelude.{refl, Option, ok}
use operator_component_frame.Prelude.Results.{◌>>=◌, Edit, run_edits}
use operator_component_frame.Pods.{PodTemplate}
use operator_component_frame.Editors.Specs.DaemonSet.{DaemonSetSpec}
use operator_component_frame.Workload.{
  apply_to_template, apply_to_pod_spec, apply_containers, apply_init_containers, apply_presence_ops,
  apply_container_edits,
}
use operator_component_frame.Workload.Mutators.{Kind}
use operator_component_frame.Workload.Kinds.{
  WorkloadObject, FeaturePlan, no_feature_plan, edit_spec, apply_feature_plan,
}

-- an edit of the pod template in the spec
unfoldable pub at_template : Edit PodTemplate → Edit DaemonSetSpec
at_template edit s = edit s.template >>= λ t. ok (record s { template = t })

-- `EditDaemonSetSpec`
unfoldable pub edit_daemon_set_spec :
    Option (Edit DaemonSetSpec) → FeaturePlan DaemonSetSpec → FeaturePlan DaemonSetSpec
unfolding edit_spec
edit_daemon_set_spec = edit_spec

-- the body of the loop of `Apply`
unfoldable pub apply_plan : FeaturePlan DaemonSetSpec → Edit (WorkloadObject DaemonSetSpec)
unfolding apply_feature_plan at_template
apply_plan = apply_feature_plan at_template

unfoldable pub daemon_set_kind : Kind (WorkloadObject DaemonSetSpec) (FeaturePlan DaemonSetSpec)
unfolding apply_plan at_template apply_feature_plan apply_to_template apply_to_pod_spec
    apply_containers apply_init_containers apply_presence_ops apply_container_edits run_edits
daemon_set_kind = record {
  no_plan = no_feature_plan;
  apply_plan = apply_plan;
  apply_plan-no_plan = λ o. refl;
}
