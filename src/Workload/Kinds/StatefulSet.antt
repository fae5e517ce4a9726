-- ===== src/Workload/Kinds/StatefulSet.antt =====
-- pkg/primitives/statefulset/mutator.go: the plans of a StatefulSet, which may also change the volume
-- claim templates of a StatefulSet that does not exist yet.
use operator_component_frame.Prelude.{
  ℕ, String, ◌≡◌, refl, inl, inr, Bool-cases, Option, none, some, List, [], ◌∷◌, ◌++◌, ok, str_eq,
  if◌then◌else◌,
}
use operator_component_frame.Prelude.Results.{◌>>=◌, Edit, run_edits}
use operator_component_frame.Pods.{PodTemplate}
use operator_component_frame.Pods.Keyed.{put, remove_first}
use operator_component_frame.Editors.Specs.StatefulSet.{StatefulSetSpec, VolumeClaim, set_replicas}
use operator_component_frame.Workload.{
  apply_to_template, apply_to_pod_spec, apply_containers, apply_init_containers, apply_presence_ops,
  apply_container_edits,
}
use operator_component_frame.Workload.Mutators.{Kind}
use operator_component_frame.Workload.Kinds.{
  WorkloadObject, FeaturePlan, no_feature_plan, edit_spec, apply_feature_plan,
}

-- `volumeClaimTemplateOp`; no claim means that it is removed
pub record VolumeClaimTemplateOp : Type 0 where
  pub name : String
  pub pvc : Option VolumeClaim

-- `featurePlan`
pub record StatefulSetPlan : Type 0 where
  pub base : FeaturePlan StatefulSetSpec
  pub volume_claim_template_ops : List VolumeClaimTemplateOp

abbrev pub no_stateful_set_plan : StatefulSetPlan
no_stateful_set_plan = record { base = no_feature_plan; volume_claim_template_ops = [] }

-- an edit of the pod template in the spec
unfoldable pub at_template : Edit PodTemplate → Edit StatefulSetSpec
at_template edit s = edit s.template >>= λ t. ok (record s { template = t })

-- a registration of what every workload plans
unfoldable pub for_base :
    (FeaturePlan StatefulSetSpec → FeaturePlan StatefulSetSpec) → StatefulSetPlan → StatefulSetPlan
for_base f p = record p { base = f p.base }

-- `EditStatefulSetSpec`
unfoldable pub edit_stateful_set_spec :
    Option (Edit StatefulSetSpec) → StatefulSetPlan → StatefulSetPlan
unfolding edit_spec for_base
edit_stateful_set_spec edit = for_base (edit_spec edit)

-- `EnsureReplicas`
unfoldable pub ensure_replicas : ℕ → StatefulSetPlan → StatefulSetPlan
unfolding edit_stateful_set_spec
ensure_replicas n = edit_stateful_set_spec (some (λ s. ok (set_replicas n s)))

abbrev add_op : VolumeClaimTemplateOp → StatefulSetPlan → StatefulSetPlan
add_op op p = record p { volume_claim_template_ops = p.volume_claim_template_ops ++ (op ∷ []) }

-- `EnsureVolumeClaimTemplate`
unfoldable pub ensure_volume_claim_template : VolumeClaim → StatefulSetPlan → StatefulSetPlan
ensure_volume_claim_template pvc = add_op (record { name = pvc.name; pvc = some pvc })

-- `RemoveVolumeClaimTemplate`
unfoldable pub remove_volume_claim_template : String → StatefulSetPlan → StatefulSetPlan
remove_volume_claim_template name = add_op (record { name = name; pvc = none })

abbrev pub claim_name : VolumeClaim → String
claim_name c = c.name

-- `applyVolumeClaimTemplateOp`
unfoldable pub apply_volume_claim_template_op :
    VolumeClaimTemplateOp → List VolumeClaim → List VolumeClaim
apply_volume_claim_template_op op vcts = elim op.pvc [
  | none ↦ remove_first claim_name op.name vcts
  | some pvc ↦ put claim_name op.name pvc vcts
]

-- the loop over the operations on claim templates
unfoldable pub apply_volume_claim_template_ops :
    List VolumeClaimTemplateOp → List VolumeClaim → List VolumeClaim
apply_volume_claim_template_ops [] vcts = vcts
apply_volume_claim_template_ops (op ∷ ops) vcts =
    apply_volume_claim_template_ops ops (apply_volume_claim_template_op op vcts)

-- the claim templates, which can be set only on an object that has no resource version
unfoldable pub apply_claims :
    List VolumeClaimTemplateOp → WorkloadObject StatefulSetSpec → WorkloadObject StatefulSetSpec
unfolding apply_volume_claim_template_ops
apply_claims ops o =
    if str_eq o.metadata.resource_version ""
    then record o {
      spec = record o.spec {
        volume_claim_templates = apply_volume_claim_template_ops ops o.spec.volume_claim_templates;
      };
    }
    else o

-- the body of the loop of `Apply`
unfoldable pub apply_plan : StatefulSetPlan → Edit (WorkloadObject StatefulSetSpec)
unfolding apply_feature_plan at_template apply_claims
apply_plan p o =
    apply_feature_plan at_template p.base o >>= λ o. ok (apply_claims p.volume_claim_template_ops o)

-- No operations change no claim templates.
pub apply_claims-nil : (o : WorkloadObject StatefulSetSpec) → ok (apply_claims [] o) ≡ ok o
unfolding apply_claims apply_volume_claim_template_ops
apply_claims-nil o = elim (Bool-cases (str_eq o.metadata.resource_version "")) [
  | inl e ↦ rw e refl
  | inr e ↦ rw e refl
]

unfoldable pub stateful_set_kind : Kind (WorkloadObject StatefulSetSpec) StatefulSetPlan
unfolding apply_plan at_template apply_feature_plan apply_to_template apply_to_pod_spec
    apply_containers apply_init_containers apply_presence_ops apply_container_edits run_edits
stateful_set_kind = record {
  no_plan = no_stateful_set_plan;
  apply_plan = apply_plan;
  apply_plan-no_plan = apply_claims-nil;
}
