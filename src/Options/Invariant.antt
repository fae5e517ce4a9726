-- ===== src/Options/Invariant.antt =====
-- What holds of every set of options that is resolved with no error.
use operator_component_frame.Prelude.{
  ◌≡◌, refl, ◌⊎◌, Bool, true, false, ◌||◌, Option, none, some, List, [], ◌∷◌, any, is_some, arith,
  Result, ok, err, Error,
}
use operator_component_frame.Feature.{Gate}
use operator_component_frame.Resource.{ParticipationMode, ResourceOptions}
use operator_component_frame.Options.{
  ResourceConfig, ResourceOption, config_error, gate_deletes, resolved, resolve, resolve_with,
  resolve_resource_options, is_empty, is_set, apply_options, empty_config,
}

-- The options do not contradict one another.
pub record IsCoherent (o : ResourceOptions) : Type 0 where
  pub read_only_not_deleted : o.read_only ≡ true → o.delete ≡ false
  pub read_only_not_orphaned : o.read_only ≡ true → o.orphan ≡ false
  pub read_only_not_controlled : o.read_only ≡ true → o.block_on_foreign_controller ≡ false
  pub read_only_not_owned : o.read_only ≡ true → o.delete_only_if_owned ≡ false
  pub unowned_not_owned : o.unowned ≡ true → o.delete_only_if_owned ≡ false
  pub orphan_not_deleted : o.orphan ≡ true → o.delete ≡ false
  pub absence_read_only : o.block_on_absence || o.ignore_if_absent ≡ true → o.read_only ≡ true
  pub absence_one : o.block_on_absence ≡ true → o.ignore_if_absent ≡ false
  pub mode_given :
      (o.participation_mode ≡ ParticipationMode.required)
      ⊎ (o.participation_mode ≡ ParticipationMode.auxiliary)

resolve_with_ok :
    (c : ResourceConfig) (e : Option Error) (g : Result Bool) (o : ResourceOptions)
    → resolve_with c e g ≡ ok o
    → (e ≡ none) × (b : Bool) × (g ≡ ok b) × (o ≡ resolved c b)
unfolding resolve_with
resolve_with_ok c (some e) g o h = cc
resolve_with_ok c none (err e) o h = cc
resolve_with_ok c none (ok b) o h = (refl, b, refl, cc)

gate_of_none : (g : Option Gate) (b : Bool) → gate_deletes g ≡ ok b → is_some g ≡ false → b ≡ false
unfolding gate_deletes
gate_of_none none b h k = ground arith
gate_of_none (some x) b h k = cc

any_of_empty : (bs : List Bool) → is_empty bs ≡ true → any is_set bs ≡ false
any_of_empty [] h = refl
any_of_empty (b ∷ bs) h = cc

resolved-IsCoherent :
    (c : ResourceConfig) (b : Bool)
    → config_error c ≡ none
    → gate_deletes c.gate ≡ ok b
    → IsCoherent (resolved c b)
unfolding config_error resolved
resolved-IsCoherent c b h g = record {
  read_only_not_deleted = ground (arith, gate_of_none c.gate b g, any_of_empty c.delete_conditions);
  read_only_not_orphaned = ground (arith, any_of_empty c.orphan_conditions);
  read_only_not_controlled = ground arith;
  read_only_not_owned = ground arith;
  unowned_not_owned = ground arith;
  orphan_not_deleted = ground (
    arith,
    gate_of_none c.gate b g,
    any_of_empty c.delete_conditions,
    any_of_empty c.orphan_conditions,
  );
  absence_read_only = ground arith;
  absence_one = ground arith;
  mode_given = ground arith;
}

-- Whatever options are given in whatever order, if they resolve with no error then the result is
-- coherent: nothing read-only is deleted or orphaned, or has BlockOnForeignController or
-- DeleteOnlyIfOwned; nothing unowned has DeleteOnlyIfOwned; nothing is both deleted and orphaned; the
-- absence options come with ReadOnly and one at a time; and the mode is Required or Auxiliary.
pub resolve_resource_options-IsCoherent :
    (opts : List (Option ResourceOption)) (o : ResourceOptions)
    → resolve_resource_options opts ≡ ok o
    → IsCoherent o
unfolding resolve_resource_options resolve
resolve_resource_options-IsCoherent opts o h =
    let c = apply_options opts empty_config in
    let r = resolve_with_ok c (config_error c) (gate_deletes c.gate) o h in
    rw (r.3) (resolved-IsCoherent c r.1 r.0 r.2)
