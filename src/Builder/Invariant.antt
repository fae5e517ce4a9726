-- ===== src/Builder/Invariant.antt =====
-- What every component has that a builder builds.
use operator_component_frame.Prelude.{
  ℕ, ◌≤◌, String, ◌≡◌, refl, Bool, true, false, Option, none, some, List, [], ◌∷◌, ◌++◌, map, All,
  ok, Error, join_errors, str_eq, if◌then◌else◌, arith,
}
use operator_component_frame.Feature.{Gate}
use operator_component_frame.Resource.{Resource, DataCell}
use operator_component_frame.Options.{ResourceOption}
use operator_component_frame.Topology.Order.{IsOrdered, validate_data_topology-IsOrdered}
use operator_component_frame.Component.{Component, Prerequisite}
use operator_component_frame.Builder.{
  Builder, Duration, new_component_builder, with_name, with_condition_type, with_resource,
  include_when, with_grace_period, with_feature_gate, with_prerequisite, set_suspended, topology,
  errors_of, built, build,
}
use operator_component_frame.Builder.Placed.{registered, IsReconciled, IsDeleted}
use operator_component_frame.Builder.Sound.{
  IsSound, ++-empty, new_component_builder-IsSound, add_error-IsSound, with_name-IsSound,
  with_condition_type-IsSound, with_resource-IsSound,
}

supplied : (b : Bool) (e : Error) → (if b then [] else e ∷ []) ≡ [] → b ≡ true
supplied true e h = refl
supplied false e h = ground (arith, h)

small : (b : Bool) (n : ℕ) → n ≡ (if b then 1 else 0) → n ≤ 1
small b n h = ground (arith, h)

-- a call of a method of a builder
pub data BuilderCall (W : Type 0) : Type 0 where
  name condition_type : String → BuilderCall W
  resource : Option (Resource W) → List (Option ResourceOption) → BuilderCall W
  included : Bool → Option (Option (Resource W)) → List (Option ResourceOption) → BuilderCall W
  grace_period : Duration → BuilderCall W
  feature_gate : Option Gate → BuilderCall W
  prerequisite : Option (Prerequisite W) → BuilderCall W
  suspended : Bool → BuilderCall W

module _ {W : Type 0} where
  abbrev pub call : BuilderCall W → Builder W → Builder W
  call (BuilderCall.name n) = with_name n
  call (BuilderCall.condition_type t) = with_condition_type t
  call (BuilderCall.resource r opts) = with_resource r opts
  call (BuilderCall.included include r opts) = include_when include r opts
  call (BuilderCall.grace_period d) = with_grace_period d
  call (BuilderCall.feature_gate g) = with_feature_gate g
  call (BuilderCall.prerequisite p) = with_prerequisite p
  call (BuilderCall.suspended b) = set_suspended b

  -- the calls in their order
  abbrev pub call_all : List (BuilderCall W) → Builder W → Builder W
  call_all [] b = b
  call_all (c ∷ cs) b = call_all cs (call c b)

  -- The other parts of a builder do not matter.
  others-IsSound :
      (b : Builder W) (g : ℕ) (f : Option Gate) (p : List (Prerequisite W)) (x given : Bool)
      → IsSound b
      → IsSound (record b {
        feature_gate_supplied = given;
        component = record b.component {
          grace_period = g;
          feature_gate = f;
          prerequisites = p;
          suspended = x;
        };
      })
  others-IsSound b g f p x given s = record {
    counted = s.counted;
    reconciled = s.reconciled;
    deleted = s.deleted;
    named = s.named;
    typed = s.typed;
  }

  if-IsSound :
      (x : Bool) (b b' : Builder W) → IsSound b → IsSound b' → IsSound (if x then b else b')
  if-IsSound true b b' s s' = s
  if-IsSound false b b' s s' = s'

  call-IsSound : (c : BuilderCall W) (b : Builder W) → IsSound b → IsSound (call c b)
  unfolding include_when with_grace_period with_feature_gate with_prerequisite set_suspended
  call-IsSound (BuilderCall.name n) b s = with_name-IsSound n b s
  call-IsSound (BuilderCall.condition_type t) b s = with_condition_type-IsSound t b s
  call-IsSound (BuilderCall.resource r opts) b s = with_resource-IsSound r opts b s
  call-IsSound (BuilderCall.included false r opts) b s = s
  call-IsSound (BuilderCall.included true none opts) b s = add_error-IsSound _ b s
  call-IsSound (BuilderCall.included true (some r) opts) b s = with_resource-IsSound r opts b s
  call-IsSound (BuilderCall.grace_period (Duration.below_zero n)) b s = add_error-IsSound _ b s
  call-IsSound (BuilderCall.grace_period (Duration.nanoseconds n)) b s =
      others-IsSound b n b.component.feature_gate b.component.prerequisites b.component.suspended
        b.feature_gate_supplied s
  call-IsSound (BuilderCall.feature_gate none) b s = s
  call-IsSound (BuilderCall.feature_gate (some g)) b s =
      if-IsSound b.feature_gate_supplied _ _ (add_error-IsSound _ b s) (
        others-IsSound b b.component.grace_period (some g) b.component.prerequisites
          b.component.suspended true s)
  call-IsSound (BuilderCall.prerequisite none) b s = s
  call-IsSound (BuilderCall.prerequisite (some p)) b s =
      others-IsSound b b.component.grace_period b.component.feature_gate
        (b.component.prerequisites ++ (p ∷ [])) b.component.suspended b.feature_gate_supplied s
  call-IsSound (BuilderCall.suspended x) b s =
      others-IsSound b b.component.grace_period b.component.feature_gate b.component.prerequisites x
        b.feature_gate_supplied s

  call_all-IsSound :
      (cs : List (BuilderCall W)) (b : Builder W) → IsSound b → IsSound (call_all cs b)
  call_all-IsSound [] b s = s
  call_all-IsSound (c ∷ cs) b s = call_all-IsSound cs (call c b) (call-IsSound c b s)

  -- A component that may be reconciled.
  pub record IsWellFormed (c : Component W) : Type 0 where
    pub identified : (identity : String) → registered identity c ≤ 1
    pub reconciled : All IsReconciled c.reconcile_resources
    pub deleted : All IsDeleted c.delete_resources
    pub ordered : IsOrdered [] c.reconcile_resources
    pub named : str_eq c.name "" ≡ false
    pub typed : str_eq c.condition_type "" ≡ false

  -- A build that succeeds found no errors.
  built-ok :
      (clear : DataCell → W → W) (b : Builder W) (es : List Error) (c : Component W)
      → built clear b (join_errors es) ≡ ok c
      → (es ≡ []) × (c ≡ record b.component { data_cells = map clear (topology b).0 })
  built-ok clear b [] c h = (refl, cc)
  built-ok clear b (e ∷ es) c h = cc

  -- Whatever methods of a new builder are called in whatever order, if `Build` then succeeds, the component
  -- is well formed: no identity is registered twice; the options of each entry are coherent, and ask for
  -- deletion just in the list of the resources to delete; each data cell that is read is written by a
  -- resource registered earlier; and neither the name nor the condition type is empty.
  pub build-IsWellFormed :
      (clear : DataCell → W → W) (calls : List (BuilderCall W)) (c : Component W)
      → build clear (call_all calls new_component_builder) ≡ ok c
      → IsWellFormed c
  unfolding build errors_of
  build-IsWellFormed clear calls c h =
      let b = call_all calls new_component_builder in
      let s = call_all-IsSound calls new_component_builder new_component_builder-IsSound in
      let r = built-ok clear b (errors_of b) c h in
      let e = ++-empty b.build_errors _ r.0 in
      let e' = ++-empty _ _ e.1 in
      let e'' = ++-empty _ _ e'.1 in
      rw r.1 (record {
        identified = λ n. small _ _ (s.counted n);
        reconciled = s.reconciled;
        deleted = s.deleted;
        ordered =
            validate_data_topology-IsOrdered b.component.name b.component.reconcile_resources e''.1;
        named = s.named e.0 (supplied b.name_supplied _ e'.0);
        typed = s.typed e.0 (supplied b.condition_type_supplied _ e''.0);
      })
