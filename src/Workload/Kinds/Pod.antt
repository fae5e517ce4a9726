-- ===== src/Workload/Kinds/Pod.antt =====
-- pkg/primitives/pod/mutator.go: the plans of a Pod, which is its own pod template.
use operator_component_frame.Prelude.{refl, Option, List, [], ok}
use operator_component_frame.Prelude.Results.{◌>>=◌, Edit, run_edits}
use operator_component_frame.Pods.{ObjectMeta, PodSpec}
use operator_component_frame.Workload.{
  PodPlan, apply_to_pod_spec, apply_containers, apply_init_containers, apply_presence_ops,
  apply_container_edits,
}
use operator_component_frame.Workload.Plans.{no_pod_plan, add_edit}
use operator_component_frame.Workload.Mutators.{Kind}
use operator_component_frame.Workload.Kinds.{WorkloadObject}

-- `featurePlan`; nothing is registered for the metadata of a template
pub record PodFeaturePlan : Type 0 where
  pub metadata_edits : List (Edit ObjectMeta)
  pub pods : PodPlan

abbrev pub no_pod_feature_plan : PodFeaturePlan
no_pod_feature_plan = record { metadata_edits = []; pods = no_pod_plan }

-- `EditObjectMetadata`
unfoldable pub edit_object_metadata : Option (Edit ObjectMeta) → PodFeaturePlan → PodFeaturePlan
unfolding add_edit
edit_object_metadata edit p = record p { metadata_edits = add_edit edit p.metadata_edits }

-- the body of the loop of `Apply`
unfoldable pub apply_plan : PodFeaturePlan → Edit (WorkloadObject PodSpec)
unfolding run_edits apply_to_pod_spec
apply_plan p o = run_edits p.metadata_edits o.metadata >>= λ m.
    apply_to_pod_spec p.pods o.spec >>= λ s. ok (record { metadata = m; spec = s })

unfoldable pub pod_kind : Kind (WorkloadObject PodSpec) PodFeaturePlan
unfolding apply_plan apply_to_pod_spec apply_containers apply_init_containers apply_presence_ops
    apply_container_edits run_edits
pod_kind = record {
  no_plan = no_pod_feature_plan;
  apply_plan = apply_plan;
  apply_plan-no_plan = λ o. refl;
}
