-- ===== src/Examples/Workloads.antt =====
-- A Deployment and the features of one, which the examples share.
use operator_component_frame.Prelude.{String, true, false, none, some, List, [], ◌∷◌}
use operator_component_frame.Pods.{Container, ResourceRequirements, PodSpec, ObjectMeta}
use operator_component_frame.Editors.Specs.Deployment.{DeploymentSpec}
use operator_component_frame.Workload.Plans.{ensure_container, ensure_container_arg}
use operator_component_frame.Workload.Kinds.{WorkloadObject, FeaturePlan, for_pods}
use operator_component_frame.Workload.Kinds.Deployment.{ensure_replicas}
use operator_component_frame.Workload.Features.{Registration}

abbrev pub no_resources : ResourceRequirements
no_resources = record { limits = []; requests = []; claims = "" }

abbrev pub container : String → List String → Container
container name args = record {
  name = name;
  env = [];
  args = args;
  resources = no_resources;
  other = "";
}

abbrev pub web : Container
web = container "web" ("--port=80" ∷ [])

abbrev pub sidecar : Container
sidecar = container "sidecar" []

abbrev pub no_metadata : ObjectMeta
no_metadata = record { labels = []; annotations = []; resource_version = ""; other = "" }

abbrev pub pod_spec : PodSpec
pod_spec = record {
  service_account_name = "";
  image_pull_secrets = [];
  node_selector = [];
  tolerations = [];
  volumes = [];
  priority_class_name = "";
  host_network = false;
  host_pid = false;
  host_ipc = false;
  security_context = none;
  containers = web ∷ [];
  init_containers = [];
  other = "";
}

abbrev pub deployment : WorkloadObject DeploymentSpec
deployment = record {
  metadata = no_metadata;
  spec = record {
    replicas = some 1;
    paused = false;
    min_ready_seconds = 0;
    revision_history_limit = none;
    progress_deadline_seconds = none;
    template = record { metadata = no_metadata; spec = pod_spec };
    other = "";
  };
}

abbrev pub features : List (Registration (FeaturePlan DeploymentSpec))
features =
    record { name = "scale"; enabled = true; register = ensure_replicas 3 }
    ∷ record { name = "sidecar"; enabled = false; register = for_pods (ensure_container sidecar) }
    ∷ record { name = "verbose"; enabled = true; register = for_pods (ensure_container_arg "-v") }
    ∷ []
