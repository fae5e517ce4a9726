-- ===== src/Examples/Mutating.antt =====
-- The theorems on editors, mutators and generic resources, applied to a Deployment.
use operator_component_frame.Prelude.{◌≡◌, refl, false, none, some, List, [], ◌∷◌, map, ok, String}
use operator_component_frame.Prelude.Results.{with_context}
use operator_component_frame.Resource.{DataCell}
use operator_component_frame.Pods.{EnvVar}
use operator_component_frame.Pods.Keyed.{find, IsUnique}
use operator_component_frame.Editors.Selectors.{container_named}
use operator_component_frame.Editors.Containers.{ensure_env_var, ensure_arg}
use operator_component_frame.Editors.Changes.{IsEdited, container_edits-IsEdited}
use operator_component_frame.Editors.Specs.Deployment.{DeploymentSpec}
use operator_component_frame.Workload.{
  ContainerEdit, ContainerPresenceOp, container_name, apply_presence_ops, apply_container_edits,
}
use operator_component_frame.Workload.Plans.{ensure_op, remove_op}
use operator_component_frame.Workload.Presence.{said, apply_presence_ops-refines}
use operator_component_frame.Workload.Snapshot.{
  value_of, edit_by_edit, apply_container_edits-edit_by_edit,
}
use operator_component_frame.Workload.Mutators.{Mutator}
use operator_component_frame.Workload.Kinds.{WorkloadObject, FeaturePlan}
use operator_component_frame.Workload.Kinds.Deployment.{deployment_kind}
use operator_component_frame.Workload.Features.{
  mutation_of, feature_mutator, apply_in_order, apply_mutations-in_order,
}
use operator_component_frame.Examples.Workloads.{web, sidecar, deployment, features}
use operator_component_frame.Generic.Mutations.{apply_mutations}
use operator_component_frame.Generic.Cells.{Cells, is_set}
use operator_component_frame.Generic.Base.{BaseResource, firing_set, produced_data, produced_from}
use operator_component_frame.Generic.Typed.{
  ObjectType, mutate, extract, extract_all, extract_data, guard_status, handler_status,
}
use operator_component_frame.Generic.Mutate.{IsOutcome, mutate-IsOutcome}
use operator_component_frame.Generic.Firing.{IsReported, firing_set-IsReported}
use operator_component_frame.Generic.Guard.{guard_status-extract_data}

abbrev log_level : EnvVar
log_level = record { name = "LOG_LEVEL"; value = "debug" }

container_edits-IsEdited_example : IsEdited (ensure_env_var log_level web)
container_edits-IsEdited_example = container_edits-IsEdited (ensure_env_var log_level web)

abbrev operations : List ContainerPresenceOp
operations = ensure_op sidecar ∷ remove_op "web" ∷ []

apply_presence_ops-refines_example :
    IsUnique container_name (apply_presence_ops operations (web ∷ []))
    × ((n : String)
        → find container_name n (apply_presence_ops operations (web ∷ []))
          ≡ said operations n (find container_name n (web ∷ [])))
unfolding find
apply_presence_ops-refines_example =
    apply_presence_ops-refines operations (web ∷ []) (refl, (tt, tt)) (refl, tt)

-- an edit that renames the containers called web, and one for the same containers after it
abbrev renaming : List ContainerEdit
renaming =
    record { selector = container_named "web"; edit = λ c. ok (record c { name = "site" }) }
    ∷ record { selector = container_named "web"; edit = λ c. ok (ensure_arg "-v" c) }
    ∷ []

apply_container_edits-edit_by_edit_example :
    value_of (apply_container_edits renaming (web ∷ sidecar ∷ []))
    ≡ value_of (edit_by_edit renaming 0 (web ∷ sidecar ∷ []) (web ∷ sidecar ∷ []))
apply_container_edits-edit_by_edit_example =
    apply_container_edits-edit_by_edit renaming (web ∷ sidecar ∷ [])

apply_mutations-in_order_example :
    apply_mutations (feature_mutator deployment_kind) (map mutation_of features) none deployment
    ≡ with_context
        ("failed to apply planned mutations" ∷ [])
        (apply_in_order deployment_kind features deployment)
apply_mutations-in_order_example = apply_mutations-in_order deployment_kind features deployment

abbrev Deployment : Type 0
Deployment = WorkloadObject DeploymentSpec

abbrev deployments : ObjectType Deployment Deployment
deployments = record {
  as_typed = some;
  copy_object = some;
  copy_typed = some;
  type_of = λ o. "*v1.Deployment";
  typed_name = λ o. "*v1.Deployment";
  zero_name = "*v1.Deployment";
}

abbrev address : DataCell
address = record { pointer = 1; cell_name = "address" }

abbrev resource : BaseResource Deployment (Mutator Deployment (FeaturePlan DeploymentSpec))
resource = record {
  desired_object = deployment;
  identity_func = λ o. "deployment/web";
  metrics_identifier = "web";
  data_extractions = record { cell = address; fn = λ o. ok "10.0.0.1" } ∷ [];
  data_consumptions = [];
  feature_mutator = feature_mutator deployment_kind;
  mutations = map mutation_of features;
  suspender = none;
  guard_handler = none;
  suspend_status_handler = none;
  suspend_mutation_handler = none;
  delete_on_suspend_handler = none;
}

mutate-IsOutcome_example :
    IsOutcome resource
      (apply_mutations (feature_mutator deployment_kind) (map mutation_of features) none deployment)
      (mutate deployments deployment resource)
mutate-IsOutcome_example = mutate-IsOutcome deployments resource deployment deployment refl

firing_set-IsReported_example : IsReported resource (firing_set resource)
firing_set-IsReported_example = firing_set-IsReported resource

abbrev reader : BaseResource Deployment (Mutator Deployment (FeaturePlan DeploymentSpec))
reader = record resource {
  data_extractions = [];
  data_consumptions = record { cell = address; optional = false } ∷ [];
}

abbrev no_cells : Cells
no_cells = λ p. none

guard_status-extract_data_example :
    guard_status deployments reader (extract_data deployments resource no_cells).1
    ≡ handler_status deployments reader
unfolding extract_data extract_all extract produced_data produced_from is_set
guard_status-extract_data_example =
    guard_status-extract_data deployments deployments resource reader no_cells refl (refl, tt)
