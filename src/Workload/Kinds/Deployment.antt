-- ===== src/Workload/Kinds/Deployment.antt =====
-- pkg/primitives/deployment/mutator.go: the plans of a Deployment.
use operator_component_frame.Prelude.{ℕ, refl, Option, some, ok}
use operator_component_frame.Prelude.Results.{◌>>=◌, Edit, run_edits}
use operator_component_frame.Pods.{PodTemplate}
use operator_component_frame.Editors.Specs.Deployment.{DeploymentSpec, set_replicas}
use operator_component_frame.Workload.{
  apply_to_template, apply_to_pod_spec, apply_containers, apply_init_containers, apply_presence_ops,
  apply_container_edits,
}
use operator_component_frame.Workload.Mutators.{Kind}
use operator_component_frame.Workload.Kinds.{
  WorkloadObject, FeaturePlan, no_feature_plan, edit_spec, apply_feature_plan,
}

-- an edit of the pod template in the spec
unfoldable pub at_template : Edit PodTemplate → Edit DeploymentSpec
at_template edit s = edit s.template >>= λ t. ok (record s { template = t })

-- `EditDeploymentSpec`
unfoldable pub edit_deployment_spec :
    Option (Edit DeploymentSpec) → FeaturePlan DeploymentSpec → FeaturePlan DeploymentSpec
unfolding edit_spec
edit_deployment_spec = edit_spec

-- `EnsureReplicas`
unfoldable pub ensure_replicas : ℕ → FeaturePlan DeploymentSpec → FeaturePlan DeploymentSpec
unfolding edit_deployment_spec
ensure_replicas n = edit_deployment_spec (some (λ s. ok (set_replicas n s)))

-- the body of the loop of `Apply`
unfoldable pub apply_plan : FeaturePlan DeploymentSpec → Edit (WorkloadObject DeploymentSpec)
unfolding apply_feature_plan at_template
apply_plan = apply_feature_plan at_template

unfoldable pub deployment_kind : Kind (WorkloadObject DeploymentSpec) (FeaturePlan DeploymentSpec)
unfolding apply_plan at_template apply_feature_plan apply_to_template apply_to_pod_spec
    apply_containers apply_init_containers apply_presence_ops apply_container_edits run_edits
deployment_kind = record {
  no_plan = no_feature_plan;
  apply_plan = apply_plan;
  apply_plan-no_plan = λ o. refl;
}
