-- ===== src/Examples/Observing.antt =====
-- The theorems on status handlers and on suspension, applied.
use operator_component_frame.Prelude.{ℕ, String, ◌≡◌, refl, ◌↔◌, ◌⊎◌, false, none, some, [], ◌∷◌}
use operator_component_frame.Status.{Status, ConvergingOperation}
use operator_component_frame.Handlers.{desired_replicas}
use operator_component_frame.Handlers.Pod
use operator_component_frame.Handlers.Pod.{Pod, failing_container}
use operator_component_frame.Handlers.Agreement.{
  Workload, converging_status, grace_status, converging_status-grace_status,
  converging_status-pod_grace,
}
use operator_component_frame.Handlers.Suspension.{suspend_deployment, suspend_deployment-replicas}
use operator_component_frame.Generic.Mutations.{
  apply_mutations, apply_intents, apply_features, apply_suspension,
}
use operator_component_frame.Workload.Kinds.{
  WorkloadObject, edit_spec, apply_feature_plan, for_pods,
}
use operator_component_frame.Workload.Kinds.Deployment.{
  deployment_kind, apply_plan, ensure_replicas, edit_deployment_spec, at_template,
}
use operator_component_frame.Workload.Features.{feature_mutator}
use operator_component_frame.Workload.Mutators.{
  planned, new_mutator, next_feature, apply_plans, apply,
}
use operator_component_frame.Workload.Plans.{
  add_edit, ensure_container, ensure_container_arg, edit_containers, add_container_edit,
}
use operator_component_frame.Workload.{
  apply_to_template, apply_to_pod_spec, apply_containers, apply_init_containers, apply_presence_op,
  apply_presence_ops, apply_container_edits, edit_each, edit_container,
}
use operator_component_frame.Prelude.Results.{run_edits}
use operator_component_frame.Feature.{apply_intent, run_mutate}
use operator_component_frame.Editors.Selectors.{all_containers}
use operator_component_frame.Editors.Containers.{ensure_arg}
use operator_component_frame.Editors.Specs.Deployment.{DeploymentSpec, set_replicas}
use operator_component_frame.Examples.Workloads.{
  container, deployment, features, pod_spec, no_metadata,
}

abbrev digits : ℕ → String
digits n = "n"

abbrev rolling : Workload
rolling = Workload.deployment (record {
  generation = 2;
  spec = deployment.spec;
  status = record {
    observed_generation = 2;
    replicas = 2;
    ready_replicas = 1;
    updated_replicas = 1;
  };
})

converging_status-grace_status_example :
    (converging_status digits ConvergingOperation.updated rolling ≡ Status.healthy)
    ↔ (grace_status digits rolling ≡ Status.healthy)
converging_status-grace_status_example =
    converging_status-grace_status digits ConvergingOperation.updated rolling

abbrev finished : Pod
finished = record {
  phase = "Succeeded";
  container_statuses =
      record { name = "main"; ready = false; waiting = none; terminated = some 0 } ∷ [];
}

converging_status-pod_grace_example :
    (((Pod.converging_status ConvergingOperation.none_op finished).status ≡ Status.healthy)
      ↔ (((Pod.grace_status finished).status ≡ Status.healthy) ⊎ (finished.phase ≡ "Succeeded")))
    × (finished.phase ≡ "Succeeded" → (Pod.grace_status finished).status ≡ Status.down)
unfolding failing_container
converging_status-pod_grace_example =
    converging_status-pod_grace ConvergingOperation.none_op finished refl

-- the Deployment of the examples, suspended
abbrev idle : WorkloadObject DeploymentSpec
idle = record deployment {
  spec = record deployment.spec {
    replicas = some 0;
    template = record {
      metadata = no_metadata;
      spec = record pod_spec { containers = container "web" ("--port=80" ∷ "-v" ∷ []) ∷ [] };
    };
  };
}

suspend_deployment-replicas_example : desired_replicas idle.spec.replicas ≡ 0
unfolding suspend_deployment apply_mutations apply_intents apply_features apply_suspension
    feature_mutator apply_intent run_mutate planned new_mutator next_feature apply_plans apply
    deployment_kind apply_plan ensure_replicas edit_deployment_spec edit_spec add_edit
    apply_feature_plan at_template apply_to_template apply_to_pod_spec apply_containers
    apply_init_containers apply_presence_op apply_presence_ops apply_container_edits edit_each
    edit_container run_edits set_replicas for_pods ensure_container ensure_container_arg
    edit_containers add_container_edit all_containers ensure_arg
suspend_deployment-replicas_example = suspend_deployment-replicas features deployment idle refl
