-- ===== src/Pods.antt =====
-- The parts of a pod that pkg/mutation edits: k8s.io/api/core/v1 and metav1.ObjectMeta, as far as the
-- editors and mutators read and write them.
--
-- A map of texts is a list of entries that is searched by key; a nil map is the empty one. What no
-- editor looks into is one text.
pub mod Keyed
use operator_component_frame.Prelude.{String, Bool, Option, List}

-- an entry of a map: a label, an annotation, a quantity, or a node selector
pub record Entry : Type 0 where
  pub entry_key : String
  pub entry_value : String

-- `corev1.EnvVar`; `value` stands for its value or its source
pub record EnvVar : Type 0 where
  pub name : String
  pub value : String

-- `corev1.ResourceRequirements`
pub record ResourceRequirements : Type 0 where
  pub limits : List Entry
  pub requests : List Entry
  pub claims : String

-- `corev1.Container`; `other` stands for its image, ports, mounts and probes
pub record Container : Type 0 where
  pub name : String
  pub env : List EnvVar
  pub args : List String
  pub resources : ResourceRequirements
  pub other : String

-- `corev1.Volume`
pub record Volume : Type 0 where
  pub name : String
  pub volume_source : String

-- `corev1.Toleration`
pub record Toleration : Type 0 where
  pub toleration_key : String
  pub operator : String
  pub value : String
  pub effect : String
  pub toleration_seconds : Option String

-- `corev1.PodSpec`
pub record PodSpec : Type 0 where
  pub service_account_name : String
  pub image_pull_secrets : List String
  pub node_selector : List Entry
  pub tolerations : List Toleration
  pub volumes : List Volume
  pub priority_class_name : String
  pub host_network : Bool
  pub host_pid : Bool
  pub host_ipc : Bool
  pub security_context : Option String
  pub containers : List Container
  pub init_containers : List Container
  pub other : String

-- `metav1.ObjectMeta`
pub record ObjectMeta : Type 0 where
  pub labels : List Entry
  pub annotations : List Entry
  pub resource_version : String
  pub other : String

-- `corev1.PodTemplateSpec`
pub record PodTemplate : Type 0 where
  pub metadata : ObjectMeta
  pub spec : PodSpec
