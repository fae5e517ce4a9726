-- ===== src/Workload/Kinds.antt =====
-- Objects with metadata and a spec, and the plans of a mutator for them. The kinds of workload differ in
-- where the pod template is in the spec and in what else they plan.
pub mod Deployment
pub mod DaemonSet
pub mod ReplicaSet
pub mod Job
pub mod StatefulSet
pub mod CronJob
pub mod Pod
use operator_component_frame.Prelude.{◌≡◌, refl, Option, List, [], ok}
use operator_component_frame.Prelude.Results.{◌>>=◌, Edit, run_edits}
use operator_component_frame.Pods.{ObjectMeta, PodTemplate}
use operator_component_frame.Workload.{
  PodPlan, apply_to_template, apply_to_pod_spec, apply_containers, apply_init_containers,
  apply_presence_ops, apply_container_edits,
}
use operator_component_frame.Workload.Plans.{no_pod_plan, add_edit}

-- an object with metadata and a spec
pub record WorkloadObject (S : Type 0) : Type 0 where
  pub metadata : ObjectMeta
  pub spec : S

-- `featurePlan` of a workload with a pod template
pub record FeaturePlan (S : Type 0) : Type 0 where
  pub metadata_edits : List (Edit ObjectMeta)
  pub spec_edits : List (Edit S)
  pub pods : PodPlan

module _ {S : Type 0} where
  abbrev pub no_feature_plan : FeaturePlan S
  no_feature_plan = record { metadata_edits = []; spec_edits = []; pods = no_pod_plan }

  -- `EditObjectMetadata`
  unfoldable pub edit_object_metadata : Option (Edit ObjectMeta) → FeaturePlan S → FeaturePlan S
  unfolding add_edit
  edit_object_metadata edit p = record p { metadata_edits = add_edit edit p.metadata_edits }

  -- `EditDeploymentSpec` and its like
  unfoldable pub edit_spec : Option (Edit S) → FeaturePlan S → FeaturePlan S
  unfolding add_edit
  edit_spec edit p = record p { spec_edits = add_edit edit p.spec_edits }

  -- a registration that concerns the pods
  unfoldable pub for_pods : (PodPlan → PodPlan) → FeaturePlan S → FeaturePlan S
  for_pods f p = record p { pods = f p.pods }

  -- one plan: the metadata, the spec, then the pod template in the spec
  unfoldable pub apply_feature_plan :
      (Edit PodTemplate → Edit S) → FeaturePlan S → Edit (WorkloadObject S)
  unfolding run_edits apply_to_template
  apply_feature_plan at_template p o = run_edits p.metadata_edits o.metadata >>= λ m.
      run_edits p.spec_edits o.spec >>= at_template (apply_to_template p.pods) >>= λ s.
      ok (record { metadata = m; spec = s })
