-- ===== src/Builder.antt =====
-- pkg/component/builder.go: the builder of a component.
--
-- A builder is changed by its methods, which give it back. A nil resource, option, gate or
-- prerequisite is `none`. `reflect` is not modelled: a typed nil pointer is `none` as well.
pub mod Placed
pub mod Sound
pub mod Invariant
pub mod Shown
use operator_component_frame.Prelude.{
  ℕ, String, Bool, true, false, Option, none, some, List, [], ◌∷◌, ◌++◌, map, any, Result, ok, err,
  Error, new_error, wrap, join_errors, concat, str_eq, if◌then◌else◌,
}
use operator_component_frame.Feature.{Gate}
use operator_component_frame.Resource.{
  Resource, ResourceOptions, ReconcileEntry, ParticipationMode, DataCell,
}
use operator_component_frame.Options.{ResourceOption, resolve_resource_options}
use operator_component_frame.Topology.{validate_data_topology}
use operator_component_frame.Component.{Component, Prerequisite}

-- `time.Duration`: nanoseconds, which may be negative
pub data Duration : Type 0 where
  nanoseconds below_zero : ℕ → Duration

-- `Builder`; the lookup by identity, which the code keeps in the component, holds the resources
pub record Builder (W : Type 0) : Type 0 where
  pub component : Component W
  pub resource_lookup : List (Resource W)
  pub build_errors : List Error
  pub name_supplied : Bool
  pub condition_type_supplied : Bool
  pub feature_gate_supplied : Bool

abbrev pub bool_text : Bool → String
bool_text true = "true"
bool_text false = "false"

abbrev pub mode_text : ParticipationMode → String
mode_text ParticipationMode.unset = ""
mode_text ParticipationMode.required = "Required"
mode_text ParticipationMode.auxiliary = "Auxiliary"

abbrev pub duplicate_error : String → String → ResourceOptions → Error
duplicate_error identity name o = new_error (
    concat (
      "duplicate resource \""
      ∷ identity
      ∷ "\" in component \""
      ∷ name
      ∷ "\" (delete="
      ∷ bool_text o.delete
      ∷ ", readOnly="
      ∷ bool_text o.read_only
      ∷ ", mode="
      ∷ mode_text o.participation_mode
      ∷ ")"
      ∷ []))

module _ {W : Type 0} where
  -- `NewComponentBuilder`
  unfoldable pub new_component_builder : Builder W
  new_component_builder = record {
    component = record {
      name = "";
      suspended = false;
      condition_type = "";
      reconcile_resources = [];
      delete_resources = [];
      orphan_resources = [];
      grace_period = 0;
      feature_gate = none;
      prerequisites = [];
      data_cells = [];
    };
    resource_lookup = [];
    build_errors = [];
    name_supplied = false;
    condition_type_supplied = false;
    feature_gate_supplied = false;
  }

  abbrev pub add_error : Error → Builder W → Builder W
  add_error e b = record b { build_errors = b.build_errors ++ (e ∷ []) }

  -- `WithName`
  unfoldable pub with_name : String → Builder W → Builder W
  with_name name b =
      let checked =
        if str_eq name "" then add_error (new_error "component name cannot be empty") b else b in
      record checked { name_supplied = true; component = record b.component { name = name } }

  -- `WithConditionType`
  unfoldable pub with_condition_type : String → Builder W → Builder W
  with_condition_type condition_type b =
      let checked =
        if str_eq condition_type ""
        then add_error (new_error "condition type cannot be empty") b
        else b in
      record checked {
        condition_type_supplied = true;
        component = record b.component { condition_type = condition_type };
      }

  -- the switch at the end of `WithResource`, on `options.Orphan` and `options.Delete`
  unfoldable pub place :
      (orphan delete : Bool) → Resource W → ResourceOptions → Component W → Component W
  place true delete r options c = record c { orphan_resources = c.orphan_resources ++ (r ∷ []) }
  place false true r options c = record c {
    delete_resources = c.delete_resources ++ (record { resource = r; options = options } ∷ []);
  }
  place false false r options c = record c {
    reconcile_resources =
        c.reconcile_resources ++ (record { resource = r; options = options } ∷ []);
  }

  -- whether a resource of an identity is registered
  abbrev pub is_registered : String → List (Resource W) → Bool
  is_registered identity rs = any (λ r. str_eq r.identity identity) rs

  -- `Component.Resource`: the resource of an identity
  unfoldable pub resource_named : String → List (Resource W) → Option (Resource W)
  resource_named identity [] = none
  resource_named identity (r ∷ rs) =
      let rest = resource_named identity rs in if str_eq r.identity identity then some r else rest

  -- `WithResource` after the options have been resolved
  unfoldable pub with_resolved : Resource W → Builder W → Result ResourceOptions → Builder W
  unfolding place
  with_resolved r b (err e) =
      add_error
        (wrap ("resource \"" ∷ r.identity ∷ "\" in component \"" ∷ b.component.name ∷ "\"" ∷ []) e)
        b
  with_resolved r b (ok options) =
      if is_registered r.identity b.resource_lookup
      then add_error (duplicate_error r.identity b.component.name options) b
      else record b {
        resource_lookup = b.resource_lookup ++ (r ∷ []);
        component = place options.orphan options.delete r options b.component;
      }

  -- `WithResource`
  unfoldable pub with_resource :
      Option (Resource W) → List (Option ResourceOption) → Builder W → Builder W
  unfolding with_resolved
  with_resource none opts b =
      add_error
        (new_error
          (concat ("nil resource registered in component \"" ∷ b.component.name ∷ "\"" ∷ [])))
        b
  with_resource (some r) opts b = with_resolved r b (resolve_resource_options opts)

  -- `IncludeWhen`; the function that builds the resource is what it returns
  unfoldable pub include_when :
      Bool → Option (Option (Resource W)) → List (Option ResourceOption) → Builder W → Builder W
  unfolding with_resource
  include_when false build opts b = b
  include_when true none opts b =
      add_error
        (new_error (
          concat (
            "nil build function passed to IncludeWhen in component \"" ∷ b.component.name ∷ "\""
            ∷ [])))
        b
  include_when true (some r) opts b = with_resource r opts b

  -- `WithGracePeriod`
  unfoldable pub with_grace_period : Duration → Builder W → Builder W
  with_grace_period (Duration.below_zero n) b =
      add_error (new_error "grace period must be positive") b
  with_grace_period (Duration.nanoseconds n) b = record b {
    component = record b.component { grace_period = n };
  }

  -- `WithFeatureGate`
  unfoldable pub with_feature_gate : Option Gate → Builder W → Builder W
  with_feature_gate none b = b
  with_feature_gate (some gate) b =
      if b.feature_gate_supplied
      then add_error (new_error "feature gate already set; WithFeatureGate can only be called once")
          b
      else record b {
        feature_gate_supplied = true;
        component = record b.component { feature_gate = some gate };
      }

  -- `WithPrerequisite`
  unfoldable pub with_prerequisite : Option (Prerequisite W) → Builder W → Builder W
  with_prerequisite none b = b
  with_prerequisite (some prereq) b = record b {
    component = record b.component { prerequisites = b.component.prerequisites ++ (prereq ∷ []) };
  }

  -- `Suspend`
  unfoldable pub set_suspended : Bool → Builder W → Builder W
  set_suspended suspend b = record b { component = record b.component { suspended = suspend } }

  -- the cells and the violations of the data flow between the resources that are reconciled
  abbrev pub topology : Builder W → List DataCell × List Error
  topology b = validate_data_topology b.component.name b.component.reconcile_resources

  -- the errors that `Build` joins
  unfoldable pub errors_of : Builder W → List Error
  errors_of b =
      b.build_errors
      ++ ((if b.name_supplied
            then []
            else new_error "component name must be supplied using WithName" ∷ [])
          ++ ((if b.condition_type_supplied
                then []
                else new_error "condition type must be supplied using WithConditionType" ∷ [])
              ++ (topology b).1))

  -- the end of `Build`
  abbrev pub built : (DataCell → W → W) → Builder W → Option Error → Result (Component W)
  built clear b none = ok (record b.component { data_cells = map clear (topology b).0 })
  built clear b (some e) = err e

  -- `Build`; a data cell is what its `Clear` does
  unfoldable pub build : (DataCell → W → W) → Builder W → Result (Component W)
  unfolding errors_of
  build clear b = built clear b (join_errors (errors_of b))
