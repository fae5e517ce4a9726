-- ===== src/Examples/Samples.antt =====
-- Sample owners, resources and results over a world with nothing in it.
use operator_component_frame.Prelude.{ℕ, String, false, none, List, [], ◌∷◌, ok}
use operator_component_frame.Status.{Status}
use operator_component_frame.Resource.{
  Object, Resource, ResourceOptions, ParticipationMode, ReconcileEntry, ReconcileResult,
}
use operator_component_frame.Condition.{Condition, ConditionStatus, Owner}
use operator_component_frame.Aggregate.{Member}

abbrev pub World : Type 0
World = Unit {0}

abbrev pub object_named : String → Object
object_named n = record {
  kind = "ConfigMap";
  namespace = "shop";
  name = n;
  uid = "";
  resource_version = "";
  generation = 0;
  owner_references = [];
  managed_fields = [];
  deletion_timestamp = none;
  deletion_grace_period_seconds = none;
  self_link = "";
  status = "";
  content = "";
}

-- a static resource: it implements no optional interface
abbrev pub static_resource : String → Resource World
static_resource n = record {
  identity = n;
  object = λ w. ok (object_named n);
  write_object = λ o w. w;
  mutate = λ o w. (ok o, w);
  write_mutated = λ o w. w;
  alive = none;
  operational = none;
  completable = none;
  graceful = none;
  guardable = none;
  suspendable = none;
  data_extractable = none;
  observation_recorder = none;
  metrics_identifier = none;
  produced_data = none;
  consumed_data = none;
  previewable = none;
  mutation_inspector = none;
}

abbrev pub default_options : ResourceOptions
default_options = record {
  delete = false;
  orphan = false;
  read_only = false;
  unowned = false;
  participation_mode = ParticipationMode.required;
  suppress_grace_inconsistency_warning = false;
  block_on_absence = false;
  ignore_if_absent = false;
  block_on_foreign_controller = false;
  delete_only_if_owned = false;
}

abbrev pub entry_named : String → ReconcileEntry World
entry_named n = record { resource = static_resource n; options = default_options }

abbrev pub result_of : String → Status → String → ReconcileResult World
result_of n s r = record {
  entry = entry_named n;
  status = record { status = s; reason = r };
  grace_status = none;
}

abbrev pub condition_of : String → ConditionStatus → Status → ℕ → Condition
condition_of t s r at = record {
  condition_type = t;
  status = s;
  reason = r;
  message = "";
  observed_generation = 1;
  last_transition_time = at;
}

abbrev pub shop : Owner
shop = record {
  kind = "Shop";
  namespace = "shop";
  name = "corner";
  uid = "u1";
  generation = 2;
  conditions =
      condition_of "WebReady" ConditionStatus.is_true Status.suspended 5
      ∷ condition_of "DbReady" ConditionStatus.is_false Status.creating 5
      ∷ [];
}

abbrev pub web : Member
web = record { name = "web"; condition_type = "WebReady" }

abbrev pub db : Member
db = record { name = "db"; condition_type = "DbReady" }

abbrev pub mixed : List (ReconcileResult World)
mixed =
    result_of "cm" Status.creating "waiting for cm"
    ∷ result_of "dep" Status.guard_blocked "waiting for password"
    ∷ []
