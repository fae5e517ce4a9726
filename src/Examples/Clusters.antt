-- ===== src/Examples/Clusters.antt =====
-- A sample cluster: a store of objects behind a client, and a component with resources in it.
use operator_component_frame.Prelude.{
  ℕ, String, true, false, Option, none, some, List, [], ◌∷◌, Result, ok, err, ErrorReason, str_eq,
  if◌then◌else◌, select, not,
}
use operator_component_frame.Status.{Status, StatusWithReason}
use operator_component_frame.Condition.Meta.{list_meta}
use operator_component_frame.Resource.{
  Object, OwnerReference, Resource, ReconcileEntry, Suspendable, DataCell,
}
use operator_component_frame.Cluster.{Api, State}
use operator_component_frame.Orphan.{Retry}
use operator_component_frame.Component.{Component}
use operator_component_frame.Component.Phases.{Context}
use operator_component_frame.Examples.Samples.{object_named, default_options, shop}

abbrev pub Store : Type 0
Store = List Object

abbrev pub find_object : Store → String → Result Object
find_object [] name = err (record { reason = ErrorReason.not_found; message = "not found" })
find_object (o ∷ os) name =
    let rest = find_object os name in if str_eq o.name name then ok o else rest

abbrev pub without_object : Store → String → Store
without_object os name = select (λ o. not (str_eq o.name name)) os

abbrev pub own_reference : OwnerReference
own_reference = record { kind = "Shop"; name = "corner"; uid = "u1"; controller = true }

abbrev pub foreign_reference : OwnerReference
foreign_reference = record { kind = "Stand"; name = "market"; uid = "u2"; controller = true }

abbrev pub controller_in : List OwnerReference → Option OwnerReference
controller_in [] = none
controller_in (r ∷ rs) = let rest = controller_in rs in if r.controller then some r else rest

abbrev pub store_api : Api Store
store_api = record {
  get = λ o w. (find_object w o.name, w);
  api_get = none;
  patch = λ manager o w.
      let stored = record o { uid = "o1"; resource_version = "7" } in
      (ok stored, stored ∷ without_object w o.name);
  update = λ o w. (none, o ∷ without_object w o.name);
  delete = λ o conditions w. (none, without_object w o.name);
  has_metrics = true;
  has_rest_mapper = true;
  get_controller_of = λ o. controller_in o.owner_references;
  object_kinds = λ o. ok ("ConfigMap" ∷ []);
  gvk_for_object = λ o. ok o.kind;
  gvk_for_owner = λ owner. ok owner.kind;
  is_root_scoped = λ kind. ok false;
  set_controller_reference = λ owner o. ok (record o { owner_references = own_reference ∷ [] });
  to_unstructured = λ o. ok o;
  deep_equal = λ a b. str_eq a.content b.content;
  empty_object_like = λ o. ok (object_named o.name);
  type_name = λ o. "*v1.ConfigMap";
  to_lower = λ s. s;
  is_blank_text = λ s. str_eq s "";
  sha256_hex = λ s. "hash";
}

-- its suspension deletes it
abbrev pub deletable : Suspendable Store
deletable = record {
  delete_on_suspend = λ w. true;
  suspend = λ w. (none, w);
  suspension_status = λ w. ok (record { status = Status.suspended; reason = "" });
}

abbrev pub stored_resource : String → Option (Store → Result StatusWithReason) → Resource Store
stored_resource n guard = record {
  identity = n;
  object = λ w. ok (object_named n);
  write_object = λ o w. w;
  mutate = λ o w. (ok (record o { content = "settings" }), w);
  write_mutated = λ o w. w;
  alive = none;
  operational = none;
  completable = none;
  graceful = none;
  guardable = guard;
  suspendable = some deletable;
  data_extractable = none;
  observation_recorder = none;
  metrics_identifier = none;
  produced_data = none;
  consumed_data = none;
  previewable = none;
  mutation_inspector = none;
}

abbrev pub stored_entry : String → ReconcileEntry Store
stored_entry n = record { resource = stored_resource n none; options = default_options }

-- blocked until another resource is there
abbrev pub guarded_entry : ReconcileEntry Store
guarded_entry = record {
  resource =
      stored_resource "web" (
        some (λ w. ok (record { status = Status.guard_blocked; reason = "waiting for settings" })));
  options = default_options;
}

abbrev pub read_entry : ReconcileEntry Store
read_entry = record {
  resource = stored_resource "secret" none;
  options = record default_options { read_only = true };
}

-- deleted only if the owner owns it and nobody else controls it
abbrev pub careful_entry : ReconcileEntry Store
careful_entry = record {
  resource = stored_resource "old" none;
  options = record default_options {
    block_on_foreign_controller = true;
    delete_only_if_owned = true;
  };
}

abbrev pub owned_object : String → Object
owned_object n = record (object_named n) {
  uid = "o9";
  resource_version = "4";
  owner_references = own_reference ∷ foreign_reference ∷ [];
}

abbrev pub stocked : State Store
stocked = record { env = owned_object "secret" ∷ owned_object "old" ∷ []; owner = shop; calls = [] }

abbrev pub text_length : String → ℕ
text_length s = 20

abbrev pub once : Retry Store
once m = m

abbrev pub sample_context : Context Store
sample_context = record {
  api = store_api;
  meta = list_meta;
  retry = once;
  len = text_length;
  now = 100;
  wall = 101;
}

abbrev pub web_component : Component Store
web_component = record {
  name = "web";
  suspended = false;
  condition_type = "WebReady";
  reconcile_resources = read_entry ∷ stored_entry "settings" ∷ guarded_entry ∷ [];
  delete_resources = careful_entry ∷ [];
  orphan_resources = stored_resource "secret" none ∷ [];
  grace_period = 60;
  feature_gate = none;
  prerequisites = [];
  data_cells = [];
}

abbrev pub password : DataCell
password = record { pointer = 1; cell_name = "password" }

-- one that writes the cell, and one that reads it
abbrev pub producer : ReconcileEntry Store
producer = record {
  resource = record (stored_resource "secret" none) { produced_data = some (some password ∷ []) };
  options = default_options;
}

abbrev pub consumer : ReconcileEntry Store
consumer = record {
  resource = record (stored_resource "web" none) {
    consumed_data = some (record { cell = some password; optional = false } ∷ []);
  };
  options = default_options;
}
