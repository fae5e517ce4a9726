-- ===== src/Cluster.antt =====
-- What pkg/component calls and changes while it reconciles: the owner in memory, the cluster behind
-- a client, and the calls that it makes on them.
--
-- `W` is everything outside of the package. A call of the client may change it, and may find it
-- changed: `get` returns a world too, so other writers act between any two calls. `calls` lists,
-- oldest first, the writes, events and metrics that the package sends out.
pub mod Monad
pub mod Sends
use operator_component_frame.Prelude.{ℕ, String, Bool, Option, List, Result, Error}
use operator_component_frame.Status.{ConvergingOperation}
use operator_component_frame.Condition.{Owner}
use operator_component_frame.Resource.{OwnerReference, Object}

-- `ResourceMetricLabels`
pub record ResourceMetricLabels : Type 0 where
  pub owner_kind : String
  pub component : String
  pub identifier : String
  pub kind : String

-- `client.Preconditions`
pub record Preconditions : Type 0 where
  pub uid : String
  pub resource_version : String

pub data Call : Type 0 where
  patched : String → Object → Call
  updated : Object → Call
  deleted : Object → Option Preconditions → Call
  suspend_asked : String → Call
  event : String → String → String → Call
  apply_metric : ResourceMetricLabels → ConvergingOperation → Call
  apply_error_metric : ResourceMetricLabels → Call

-- The parts of `ReconcileContext` and of the Kubernetes libraries that the package calls.
pub record Api (W : Type 0) : Type 0 where
  pub get : Object → W → Result Object × W
  pub api_get : Option (Object → W → Result Object × W)
  pub patch : String → Object → W → Result Object × W
  pub update : Object → W → Option Error × W
  pub delete : Object → Option Preconditions → W → Option Error × W
  pub has_metrics : Bool
  pub has_rest_mapper : Bool
  pub get_controller_of : Object → Option OwnerReference
  pub object_kinds : Object → Result (List String)
  pub gvk_for_object : Object → Result String
  pub gvk_for_owner : Owner → Result String
  pub is_root_scoped : String → Result Bool
  pub set_controller_reference : Owner → Object → Result Object
  pub to_unstructured : Object → Result Object
  pub deep_equal : Object → Object → Bool
  pub empty_object_like : Object → Result Object
  pub type_name : Object → String
  pub to_lower : String → String
  pub is_blank_text : String → Bool
  pub sha256_hex : String → String

pub record State (W : Type 0) : Type 0 where
  pub env : W
  pub owner : Owner
  pub calls : List Call
