-- ===== src/Workload/Plans.antt =====
-- The registrations of pkg/primitives/deployment/mutator.go and of the other workloads that concern the
-- pods, on the plan of the active feature. A nil edit or selector is ignored.
use operator_component_frame.Prelude.{String, Option, none, some, List, [], ◌∷◌, ◌++◌, ok}
use operator_component_frame.Prelude.Results.{Edit}
use operator_component_frame.Pods.{Container, EnvVar, PodSpec, ObjectMeta}
use operator_component_frame.Editors.Selectors.{ContainerSelector, all_containers}
use operator_component_frame.Editors.Containers.{
  ensure_env_var, remove_env_var, remove_env_vars, ensure_arg, remove_arg, remove_args,
}
use operator_component_frame.Workload.{PodPlan, ContainerEdit, ContainerPresenceOp}

-- the plan of a new feature
abbrev pub no_pod_plan : PodPlan
no_pod_plan = record {
  template_metadata_edits = [];
  pod_spec_edits = [];
  container_presence = [];
  container_edits = [];
  init_container_presence = [];
  init_container_edits = [];
}

-- an edit that is not nil, added to a list of edits
unfoldable pub add_edit : {A : Type 0} → Option (Edit A) → List (Edit A) → List (Edit A)
add_edit none edits = edits
add_edit (some edit) edits = edits ++ (edit ∷ [])

unfoldable pub add_container_edit :
    Option ContainerSelector → Option (Edit Container) → List ContainerEdit → List ContainerEdit
add_container_edit (some selector) (some edit) ces =
    ces ++ (record { selector = selector; edit = edit } ∷ [])
add_container_edit _ _ ces = ces

abbrev pub ensure_op : Container → ContainerPresenceOp
ensure_op c = record { name = c.name; container = some c }

abbrev pub remove_op : String → ContainerPresenceOp
remove_op name = record { name = name; container = none }

-- `EditContainers`
unfoldable pub edit_containers :
    Option ContainerSelector → Option (Edit Container) → PodPlan → PodPlan
unfolding add_container_edit
edit_containers selector edit p = record p {
  container_edits = add_container_edit selector edit p.container_edits;
}

-- `EditInitContainers`
unfoldable pub edit_init_containers :
    Option ContainerSelector → Option (Edit Container) → PodPlan → PodPlan
unfolding add_container_edit
edit_init_containers selector edit p = record p {
  init_container_edits = add_container_edit selector edit p.init_container_edits;
}

-- `EnsureContainer`
unfoldable pub ensure_container : Container → PodPlan → PodPlan
ensure_container c p = record p { container_presence = p.container_presence ++ (ensure_op c ∷ []) }

-- `RemoveContainer`
unfoldable pub remove_container : String → PodPlan → PodPlan
remove_container name p = record p {
  container_presence = p.container_presence ++ (remove_op name ∷ []);
}

-- `RemoveContainers`
unfoldable pub remove_containers : List String → PodPlan → PodPlan
remove_containers [] p = p
remove_containers (name ∷ names) p = remove_containers names (remove_container name p)

-- `EnsureInitContainer`
unfoldable pub ensure_init_container : Container → PodPlan → PodPlan
ensure_init_container c p = record p {
  init_container_presence = p.init_container_presence ++ (ensure_op c ∷ []);
}

-- `RemoveInitContainer`
unfoldable pub remove_init_container : String → PodPlan → PodPlan
remove_init_container name p = record p {
  init_container_presence = p.init_container_presence ++ (remove_op name ∷ []);
}

-- `RemoveInitContainers`
unfoldable pub remove_init_containers : List String → PodPlan → PodPlan
remove_init_containers [] p = p
remove_init_containers (name ∷ names) p =
    remove_init_containers names (remove_init_container name p)

-- `EditPodSpec`
unfoldable pub edit_pod_spec : Option (Edit PodSpec) → PodPlan → PodPlan
unfolding add_edit
edit_pod_spec edit p = record p { pod_spec_edits = add_edit edit p.pod_spec_edits }

-- `EditPodTemplateMetadata`
unfoldable pub edit_pod_template_metadata : Option (Edit ObjectMeta) → PodPlan → PodPlan
unfolding add_edit
edit_pod_template_metadata edit p = record p {
  template_metadata_edits = add_edit edit p.template_metadata_edits;
}

-- an edit of every container that cannot fail
abbrev pub on_all_containers : (Container → Container) → PodPlan → PodPlan
on_all_containers f = edit_containers (some all_containers) (some (λ c. ok (f c)))

-- `EnsureContainerEnvVar`
unfoldable pub ensure_container_env_var : EnvVar → PodPlan → PodPlan
ensure_container_env_var ev = on_all_containers (ensure_env_var ev)

-- `RemoveContainerEnvVar`
unfoldable pub remove_container_env_var : String → PodPlan → PodPlan
remove_container_env_var name = on_all_containers (remove_env_var name)

-- `RemoveContainerEnvVars`
unfoldable pub remove_container_env_vars : List String → PodPlan → PodPlan
remove_container_env_vars names = on_all_containers (remove_env_vars names)

-- `EnsureContainerArg`
unfoldable pub ensure_container_arg : String → PodPlan → PodPlan
ensure_container_arg arg = on_all_containers (ensure_arg arg)

-- `RemoveContainerArg`
unfoldable pub remove_container_arg : String → PodPlan → PodPlan
remove_container_arg arg = on_all_containers (remove_arg arg)

-- `RemoveContainerArgs`
unfoldable pub remove_container_args : List String → PodPlan → PodPlan
remove_container_args args = on_all_containers (remove_args args)
