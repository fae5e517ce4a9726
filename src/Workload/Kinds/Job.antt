-- ===== src/Workload/Kinds/Job.antt =====
-- pkg/primitives/job/mutator.go: the plans of a Job.
use operator_component_frame.Prelude.{refl, Option, ok}
use operator_component_frame.Prelude.Results.{◌>>=◌, Edit, run_edits}
use operator_component_frame.Pods.{PodTemplate}
use operator_component_frame.Editors.Specs.Job.{JobSpec}
use operator_component_frame.Workload.{
  apply_to_template, apply_to_pod_spec, apply_containers, apply_init_containers, apply_presence_ops,
  apply_container_edits,
}
use operator_component_frame.Workload.Mutators.{Kind}
use operator_component_frame.Workload.Kinds.{
  WorkloadObject, FeaturePlan, no_feature_plan, edit_spec, apply_feature_plan,
}

-- an edit of the pod template in the spec
unfoldable pub at_template : Edit PodTemplate → Edit JobSpec
at_template edit s = edit s.template >>= λ t. ok (record s { template = t })

-- `EditJobSpec`
unfoldable pub edit_job_spec : Option (Edit JobSpec) → FeaturePlan JobSpec → FeaturePlan JobSpec
unfolding edit_spec
edit_job_spec = edit_spec

-- the body of the loop of `Apply`
unfoldable pub apply_plan : FeaturePlan JobSpec → Edit (WorkloadObject JobSpec)
unfolding apply_feature_plan at_template
apply_plan = apply_feature_plan at_template

unfoldable pub job_kind : Kind (WorkloadObject JobSpec) (FeaturePlan JobSpec)
unfolding apply_plan at_template apply_feature_plan apply_to_template apply_to_pod_spec
    apply_containers apply_init_containers apply_presence_ops apply_container_edits run_edits
job_kind = record {
  no_plan = no_feature_plan;
  apply_plan = apply_plan;
  apply_plan-no_plan = λ o. refl;
}
