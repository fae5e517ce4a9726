-- ===== src/Examples/Building.antt =====
-- The theorems on the builder and on the data topology, applied to components of two resources.
use operator_component_frame.Prelude.{refl, true, false, none, some, List, [], ◌∷◌}
use operator_component_frame.Resource.{DataCell, Resource}
use operator_component_frame.Options.{
  resolve_resource_options, resolve, config_error, gate_deletes, resolved, resolve_with,
  apply_options, apply_option, empty_config, delete_option,
}
use operator_component_frame.Component.{Component}
use operator_component_frame.Topology.{
  validate_data_topology, visit_all, visit, check_reads, check_writes, check_read, check_write,
  check_name, add_cell, is_produced,
}
use operator_component_frame.Builder.{
  Duration, new_component_builder, with_name, with_condition_type, with_resource, with_resolved,
  place, include_when, with_grace_period, set_suspended, errors_of, build,
}
use operator_component_frame.Builder.Invariant.{BuilderCall, IsWellFormed, build-IsWellFormed}
use operator_component_frame.Component.Inspection.{data_topology}
use operator_component_frame.Component.Shown.{AllShown}
use operator_component_frame.Builder.Shown.{build-AllShown}
use operator_component_frame.Examples.Samples.{World, static_resource, default_options}

abbrev calls : List (BuilderCall World)
calls =
    BuilderCall.name "shop"
    ∷ BuilderCall.resource (some (static_resource "web")) []
    ∷ BuilderCall.condition_type "Ready"
    ∷ BuilderCall.included false none []
    ∷ BuilderCall.resource (some (static_resource "old")) (none ∷ some delete_option ∷ [])
    ∷ BuilderCall.grace_period (Duration.nanoseconds 300)
    ∷ BuilderCall.suspended true
    ∷ []

abbrev component : Component World
component = record {
  name = "shop";
  suspended = true;
  condition_type = "Ready";
  reconcile_resources = record { resource = static_resource "web"; options = default_options } ∷ [];
  delete_resources =
      record {
        resource = static_resource "old";
        options = record default_options { delete = true };
      }
      ∷ [];
  orphan_resources = [];
  grace_period = 300;
  feature_gate = none;
  prerequisites = [];
  data_cells = [];
}

build-IsWellFormed_example : IsWellFormed component
unfolding build errors_of new_component_builder with_name with_condition_type with_resource
    with_resolved place include_when with_grace_period set_suspended resolve_resource_options
    resolve resolve_with config_error gate_deletes resolved apply_options apply_option empty_config
    delete_option validate_data_topology visit_all visit check_reads check_writes
build-IsWellFormed_example = build-IsWellFormed (λ cell w. w) calls component refl

abbrev password : DataCell
password = record { pointer = 7; cell_name = "password" }

-- a database that produces a password, and a web server that reads it
abbrev database : Resource World
database = record (static_resource "db") { produced_data = some (some password ∷ []) }

abbrev server : Resource World
server = record (static_resource "web") {
  consumed_data = some (record { cell = some password; optional = true } ∷ []);
}

abbrev linked_calls : List (BuilderCall World)
linked_calls =
    BuilderCall.name "shop"
    ∷ BuilderCall.condition_type "Ready"
    ∷ BuilderCall.resource (some database) []
    ∷ BuilderCall.resource (some server) []
    ∷ []

abbrev linked : Component World
linked = record component {
  suspended = false;
  grace_period = 0;
  reconcile_resources =
      record { resource = database; options = default_options }
      ∷ record { resource = server; options = default_options }
      ∷ [];
  delete_resources = [];
  data_cells = (λ w. w) ∷ [];
}

build-AllShown_example : AllShown linked.reconcile_resources (data_topology linked)
unfolding build errors_of new_component_builder with_name with_condition_type with_resource
    with_resolved place resolve_resource_options resolve resolve_with config_error gate_deletes
    resolved apply_options empty_config validate_data_topology visit_all visit check_reads
    check_writes check_read check_write check_name add_cell is_produced
build-AllShown_example = build-AllShown (λ cell w. w) linked_calls linked refl
