-- ===== src/Examples/Deciding.antt =====
-- The theorem on options, applied.
use operator_component_frame.Prelude.{refl, true, none, some, [], ◌∷◌}
use operator_component_frame.Resource.{ResourceOptions}
use operator_component_frame.Options.{
  ResourceOption, resolve_resource_options, resolve, config_error, gate_deletes, resolved,
  resolve_with, apply_options, apply_option, empty_config,
}
use operator_component_frame.Options.Invariant.{IsCoherent, resolve_resource_options-IsCoherent}
use operator_component_frame.Examples.Samples.{default_options}

abbrev absent_ok : ResourceOptions
absent_ok = record default_options { read_only = true; ignore_if_absent = true }

resolve_example : IsCoherent absent_ok
unfolding resolve_resource_options resolve resolve_with config_error gate_deletes resolved
    apply_options apply_option empty_config
resolve_example =
    resolve_resource_options-IsCoherent
      (some ResourceOption.ignore_if_absent ∷ none ∷ some ResourceOption.read_only ∷ []) absent_ok
      refl
