-- ===== src/Feature.antt =====
-- pkg/feature/feature.go: gates, and mutations behind a gate.
--
-- A gate that is not nil is the answer of its `Enabled`; a version constraint is the answer of its
-- `Enabled` for a version.
pub mod Decision
use operator_component_frame.Prelude.{
  String, Bool, true, false, Option, none, some, List, [], ◌∷◌, ◌++◌, Result, ok, err, Error,
  new_error, concat, if◌then◌else◌,
}

-- `Gate`
abbrev pub Gate : Type 0
Gate = Result Bool

-- `VersionConstraint`
abbrev pub VersionConstraint : Type 0
VersionConstraint = String → Result Bool

-- `VersionGate`
pub record VersionGate : Type 0 where
  pub current : String
  pub version_constraints : List VersionConstraint
  pub required_truths : List Bool

-- the loop of `NewVersionGate`: nil constraints are ignored
unfoldable pub constraints_given : List (Option VersionConstraint) → List VersionConstraint
constraints_given [] = []
constraints_given (none ∷ cs) = constraints_given cs
constraints_given (some c ∷ cs) = c ∷ constraints_given cs

-- `NewVersionGate`
unfoldable pub new_version_gate : String → List (Option VersionConstraint) → VersionGate
unfolding constraints_given
new_version_gate version cs = record {
  current = version;
  version_constraints = constraints_given cs;
  required_truths = [];
}

-- `VersionGate.When`
unfoldable pub when : VersionGate → Bool → VersionGate
when v truth = record v { required_truths = v.required_truths ++ (truth ∷ []) }

-- `NewBooleanGate`
unfoldable pub new_boolean_gate : Bool → VersionGate
unfolding new_version_gate when
new_boolean_gate enabled = when (new_version_gate "" []) enabled

-- the first loop of `VersionGate.Enabled`: all truths hold
unfoldable pub truths_hold : List Bool → Bool
truths_hold [] = true
truths_hold (truth ∷ truths) = let rest = truths_hold truths in if truth then rest else false

-- what the second loop does with one answer, given the rest of the loop
unfoldable pub and_then : Result Bool → Result Bool → Result Bool
and_then (err e) rest = err e
and_then (ok true) rest = rest
and_then (ok false) rest = ok false

-- the second loop of `VersionGate.Enabled`
unfoldable pub constraints_hold : String → List VersionConstraint → Result Bool
unfolding and_then
constraints_hold version [] = ok true
constraints_hold version (c ∷ cs) = and_then (c version) (constraints_hold version cs)

-- `VersionGate.Enabled`
unfoldable pub enabled : VersionGate → Result Bool
unfolding truths_hold constraints_hold
enabled v =
    if truths_hold v.required_truths
    then constraints_hold v.current v.version_constraints
    else ok false

-- `Mutation`; an object that is mutated is given back changed
pub record Mutation (T : Type 0) : Type 0 where
  pub name : String
  pub feature : Option Gate
  pub mutate : Option (T → Result T)

module _ {T : Type 0} where
  -- the part of `ApplyIntent` after the gate
  unfoldable pub run_mutate : Mutation T → T → Result T
  run_mutate m obj = elim m.mutate [
    | none ↦ err (new_error (concat ("mutation handler of " ∷ m.name ∷ " is nil" ∷ [])))
    | some f ↦ f obj
  ]

  -- `Mutation.ApplyIntent`
  unfoldable pub apply_intent : Mutation T → T → Result T
  unfolding run_mutate
  apply_intent m obj = elim m.feature [
    | none ↦ run_mutate m obj
    | some gate ↦ elim gate [ err e ↦ err e | ok on ↦ if on then run_mutate m obj else ok obj ]
  ]
