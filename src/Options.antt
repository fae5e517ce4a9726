-- ===== src/Options.antt =====
-- pkg/component/resource_options.go: the options of a resource, and how they are resolved.
pub mod Invariant
use operator_component_frame.Prelude.{
  ℕ, Bool, true, false, not, ◌&&◌, ◌||◌, Option, none, some, List, [], ◌∷◌, ◌++◌, any, is_some,
  Result, ok, err, Error, new_error, if◌then◌else◌,
}
use operator_component_frame.Feature.{Gate}
use operator_component_frame.Resource.{ParticipationMode, ResourceOptions}

-- `resourceConfig`
pub record ResourceConfig : Type 0 where
  pub read_only : Bool
  pub unowned : Bool
  pub delete_conditions : List Bool
  pub orphan_conditions : List Bool
  pub gate : Option Gate
  pub participation_mode : ParticipationMode
  pub block_on_absence : Bool
  pub ignore_if_absent : Bool
  pub block_on_foreign_controller : Bool
  pub delete_only_if_owned : Bool
  pub suppress_grace_inconsistency_warning : Bool

unfoldable pub empty_config : ResourceConfig
empty_config = record {
  read_only = false;
  unowned = false;
  delete_conditions = [];
  orphan_conditions = [];
  gate = none;
  participation_mode = ParticipationMode.unset;
  block_on_absence = false;
  ignore_if_absent = false;
  block_on_foreign_controller = false;
  delete_only_if_owned = false;
  suppress_grace_inconsistency_warning = false;
}

-- `ResourceOption`: the functions that build one
pub data ResourceOption : Type 0 where
  read_only : ResourceOption
  delete_when : Bool → ResourceOption
  orphan_when : Bool → ResourceOption
  gated_by : Option Gate → ResourceOption
  auxiliary block_on_absence ignore_if_absent unowned : ResourceOption
  block_on_foreign_controller delete_only_if_owned : ResourceOption
  suppress_grace_inconsistency_warning : ResourceOption

-- `Delete`
unfoldable pub delete_option : ResourceOption
delete_option = ResourceOption.delete_when true

-- what the function that an option is does to the configuration
unfoldable pub apply_option : ResourceOption → ResourceConfig → ResourceConfig
apply_option ResourceOption.read_only c = record c { read_only = true }
apply_option (ResourceOption.delete_when condition) c = record c {
  delete_conditions = c.delete_conditions ++ (condition ∷ []);
}
apply_option (ResourceOption.orphan_when condition) c = record c {
  orphan_conditions = c.orphan_conditions ++ (condition ∷ []);
}
apply_option (ResourceOption.gated_by gate) c = record c { gate = gate }
apply_option ResourceOption.auxiliary c = record c {
  participation_mode = ParticipationMode.auxiliary;
}
apply_option ResourceOption.block_on_absence c = record c { block_on_absence = true }
apply_option ResourceOption.ignore_if_absent c = record c { ignore_if_absent = true }
apply_option ResourceOption.unowned c = record c { unowned = true }
apply_option ResourceOption.block_on_foreign_controller c = record c {
  block_on_foreign_controller = true;
}
apply_option ResourceOption.delete_only_if_owned c = record c { delete_only_if_owned = true }
apply_option ResourceOption.suppress_grace_inconsistency_warning c = record c {
  suppress_grace_inconsistency_warning = true;
}

-- the loop of `resolveResourceOptions`; a nil option is skipped
unfoldable pub apply_options : List (Option ResourceOption) → ResourceConfig → ResourceConfig
apply_options [] c = c
apply_options (none ∷ opts) c = apply_options opts c
apply_options (some opt ∷ opts) c = apply_options opts (apply_option opt c)

abbrev pub is_empty {ℓ} : {A : Type ℓ} → List A → Bool
is_empty [] = true
is_empty (x ∷ xs) = false

abbrev pub is_set : Bool → Bool
is_set b = b

-- the checks of `resolve` before anything is resolved: the first that fails
unfoldable pub config_error : ResourceConfig → Option Error
config_error c =
    if c.block_on_absence && c.ignore_if_absent
    then some
        (new_error "resource options BlockOnAbsence and IgnoreIfAbsent are mutually exclusive")
    else if c.block_on_absence && not c.read_only
    then some (new_error "resource option BlockOnAbsence requires ReadOnly")
    else if c.ignore_if_absent && not c.read_only
    then some (new_error "resource option IgnoreIfAbsent requires ReadOnly")
    else if c.block_on_foreign_controller && c.read_only
    then some (
        new_error
          "resource option BlockOnForeignController is mutually exclusive with ReadOnly; a read-only resource is never applied")
    else if c.delete_only_if_owned && c.read_only
    then some (
        new_error
          "resource option DeleteOnlyIfOwned is mutually exclusive with ReadOnly; a read-only resource is never deleted")
    else if c.delete_only_if_owned && c.unowned
    then some (
        new_error
          "resource option DeleteOnlyIfOwned is mutually exclusive with Unowned; an unowned resource never carries the owner reference, so it would never be deleted")
    else if c.read_only && not (is_empty c.delete_conditions)
    then some (
        new_error
          "resource option ReadOnly is mutually exclusive with Delete and DeleteWhen; use IncludeWhen to conditionally include a read-only resource")
    else if c.read_only && is_some c.gate
    then some (
        new_error
          "resource option ReadOnly is mutually exclusive with GatedBy; use IncludeWhen to conditionally include a read-only resource")
    else if not (is_empty c.orphan_conditions) && not (is_empty c.delete_conditions)
    then some
        (new_error "resource option OrphanWhen is mutually exclusive with Delete and DeleteWhen")
    else if not (is_empty c.orphan_conditions) && is_some c.gate
    then some (new_error "resource option OrphanWhen is mutually exclusive with GatedBy")
    else if not (is_empty c.orphan_conditions) && c.read_only
    then some (new_error "resource option OrphanWhen is mutually exclusive with ReadOnly")
    else none

-- whether the gate alone asks for the deletion
unfoldable pub gate_deletes : Option Gate → Result Bool
gate_deletes none = ok false
gate_deletes (some (err e)) = err e
gate_deletes (some (ok enabled)) = ok (not enabled)

abbrev pub mode_or_required : ParticipationMode → ParticipationMode
mode_or_required ParticipationMode.unset = ParticipationMode.required
mode_or_required m = m

-- the part of `resolve` after its checks and its gate
unfoldable pub resolved : ResourceConfig → Bool → ResourceOptions
resolved c gated = record {
  delete = gated || any is_set c.delete_conditions;
  orphan = any is_set c.orphan_conditions;
  read_only = c.read_only;
  unowned = c.unowned;
  participation_mode = mode_or_required c.participation_mode;
  suppress_grace_inconsistency_warning = c.suppress_grace_inconsistency_warning;
  block_on_absence = c.block_on_absence;
  ignore_if_absent = c.ignore_if_absent;
  block_on_foreign_controller = c.block_on_foreign_controller;
  delete_only_if_owned = c.delete_only_if_owned;
}

-- the outcome of `resolve`, given that of its checks and of its gate
unfoldable pub resolve_with : ResourceConfig → Option Error → Result Bool → Result ResourceOptions
resolve_with c (some e) gated = err e
resolve_with c none (err e) = err e
resolve_with c none (ok gated) = ok (resolved c gated)

-- `resourceConfig.resolve`
unfoldable pub resolve : ResourceConfig → Result ResourceOptions
resolve c = resolve_with c (config_error c) (gate_deletes c.gate)

-- `resolveResourceOptions`
unfoldable pub resolve_resource_options : List (Option ResourceOption) → Result ResourceOptions
resolve_resource_options opts = resolve (apply_options opts empty_config)
