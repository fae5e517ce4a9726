-- ===== src/Handlers/Suspension.antt =====
-- What suspending a workload asks of its controller.
use operator_component_frame.Prelude.{
  ◌≡◌, refl, sym, ◌∙◌, some, List, [], ◌∷◌, map, Result, ok, err, String,
}
use operator_component_frame.Prelude.Results.{◌>>=◌, with_context, run_edits}
use mathlib.Core.Path.{subst}
use operator_component_frame.Editors.Specs.Deployment.{DeploymentSpec, set_replicas}
use operator_component_frame.Workload.{
  apply_to_template, apply_to_pod_spec, apply_containers, apply_init_containers, apply_presence_ops,
  apply_container_edits,
}
use operator_component_frame.Workload.Plans.{add_edit}
use operator_component_frame.Editors.Specs.StatefulSet.{StatefulSetSpec}
use operator_component_frame.Editors.Specs.ReplicaSet.{ReplicaSetSpec}
use operator_component_frame.Handlers.{desired_replicas}
use operator_component_frame.Generic.Mutations.{apply_mutations}
use operator_component_frame.Workload.Mutators.{Kind, Mutator, planned}
use operator_component_frame.Workload.Kinds.{
  WorkloadObject, FeaturePlan, edit_spec, apply_feature_plan,
}
use operator_component_frame.Workload.Kinds.Deployment
use operator_component_frame.Workload.Kinds.Deployment.{deployment_kind}
use operator_component_frame.Workload.Kinds.StatefulSet
use operator_component_frame.Workload.Kinds.StatefulSet.{StatefulSetPlan, stateful_set_kind}
use operator_component_frame.Workload.Kinds.ReplicaSet
use operator_component_frame.Workload.Kinds.ReplicaSet.{replica_set_kind}
use operator_component_frame.Workload.Features.{
  Registration, mutation_of, feature_mutator, apply_in_order, apply_mutations-suspended,
}

-- `DefaultSuspendMutationHandler` of a Deployment
unfoldable pub suspend_deployment :
    Mutator (WorkloadObject DeploymentSpec) (FeaturePlan DeploymentSpec)
    → Result (Mutator (WorkloadObject DeploymentSpec) (FeaturePlan DeploymentSpec))
unfolding Deployment.ensure_replicas planned
suspend_deployment m = ok (planned (Deployment.ensure_replicas 0) m)

-- `DefaultSuspendMutationHandler` of a StatefulSet
unfoldable pub suspend_stateful_set :
    Mutator (WorkloadObject StatefulSetSpec) StatefulSetPlan
    → Result (Mutator (WorkloadObject StatefulSetSpec) StatefulSetPlan)
unfolding StatefulSet.ensure_replicas planned
suspend_stateful_set m = ok (planned (StatefulSet.ensure_replicas 0) m)

-- `DefaultSuspendMutationHandler` of a ReplicaSet
unfoldable pub suspend_replica_set :
    Mutator (WorkloadObject ReplicaSetSpec) (FeaturePlan ReplicaSetSpec)
    → Result (Mutator (WorkloadObject ReplicaSetSpec) (FeaturePlan ReplicaSetSpec))
unfolding ReplicaSet.ensure_replicas planned
suspend_replica_set m = ok (planned (ReplicaSet.ensure_replicas 0) m)

-- A property that a result has, if it is a value.
abbrev IfOk : {A : Type 0} → (A → Type 0) → Result A → Type 0
IfOk P (ok a) = P a
IfOk P (err e) = Unit

IfOk-with_context :
    {A : Type 0} (Q : A → Type 0) (ctx : List String) (x : Result A)
    → IfOk Q x
    → IfOk Q (with_context ctx x)
IfOk-with_context Q ctx (ok a) h = h
IfOk-with_context Q ctx (err e) h = tt

IfOk-bind :
    {A B : Type 0} (Q : B → Type 0) (x : Result A) (f : A → Result B)
    → ((a : A) → IfOk Q (f a))
    → IfOk Q (x >>= f)
IfOk-bind Q (ok a) f h = h a
IfOk-bind Q (err e) f h = tt

module _ {O P : Type 0} (kind : Kind O P) (Q : O → Type 0) (g : P → P) where
  -- What the plan of a suspension brings about holds of every suspended object.
  suspended :
      (rs : List (Registration P)) (o t : O)
      → ((o : O) → IfOk Q (kind.apply_plan (g kind.no_plan) o))
      → apply_mutations (feature_mutator kind) (map mutation_of rs) (some (λ m. ok (planned g m))) o
        ≡ ok t
      → Q t
  suspended rs o t h e = subst (IfOk Q) (sym (apply_mutations-suspended kind rs g o) ∙ e) (
      IfOk-bind Q
        (with_context ("failed to apply planned mutations" ∷ []) (apply_in_order kind rs o)) _
        (λ o.
          IfOk-with_context Q ("failed to apply suspension mutations" ∷ []) _
            (IfOk-bind Q (apply_in_order kind rs o) (kind.apply_plan (g kind.no_plan)) h)))

scaled :
    (o : WorkloadObject DeploymentSpec)
    → IfOk
        (λ t. desired_replicas t.spec.replicas ≡ 0)
        (deployment_kind.apply_plan (Deployment.ensure_replicas 0 deployment_kind.no_plan) o)
unfolding deployment_kind Deployment.apply_plan Deployment.ensure_replicas
    Deployment.edit_deployment_spec edit_spec add_edit apply_feature_plan Deployment.at_template
    apply_to_template apply_to_pod_spec apply_containers apply_init_containers apply_presence_ops
    apply_container_edits run_edits desired_replicas set_replicas
scaled o = refl

-- A Deployment that is suspended, whatever its features do, desires no replicas.
pub suspend_deployment-replicas :
    (rs : List (Registration (FeaturePlan DeploymentSpec))) (o t : WorkloadObject DeploymentSpec)
    → apply_mutations
        (feature_mutator deployment_kind)
        (map mutation_of rs)
        (some suspend_deployment)
        o
      ≡ ok t
    → desired_replicas t.spec.replicas ≡ 0
unfolding suspend_deployment
suspend_deployment-replicas rs o t h =
    suspended deployment_kind (λ t. desired_replicas t.spec.replicas ≡ 0)
      (Deployment.ensure_replicas 0) rs o t scaled h
