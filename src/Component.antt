-- ===== src/Component.antt =====
-- pkg/component/component.go and pkg/component/prerequisite.go: a component and its reconciliation.
pub mod Phases
pub mod Flush
pub mod Inspection
pub mod Edges
pub mod Shown
pub mod Earliest
pub mod Reporting
pub mod Reported
pub mod Frame
pub mod Framed
pub mod Typing
pub mod Untouched
pub mod Transition
pub mod Deadline
use operator_component_frame.Prelude.{
  ℕ, String, Bool, true, false, not, ◌&&◌, Option, none, some, List, [], ◌∷◌, ◌++◌, Result, ok, err,
  Error, new_error, concat, select, if◌then◌else◌, ltb,
}
use operator_component_frame.Status.{Status}
use operator_component_frame.Condition.{Condition, ConditionStatus, Owner, holds}
use operator_component_frame.Condition.Meta.{MetaApi}
use operator_component_frame.Aggregate.{get_condition}
use operator_component_frame.Grace.{grace_remaining}
use operator_component_frame.Feature.{Gate}
use operator_component_frame.Resource.{Resource, ReconcileEntry}

-- `PrerequisiteStatus`; a word that the package does not know is `unrecognized`
pub data PrerequisiteStatus : Type 0 where
  met not_met : PrerequisiteStatus
  unrecognized : String → PrerequisiteStatus

-- `PrerequisiteResult`
pub record PrerequisiteResult : Type 0 where
  pub status : PrerequisiteStatus
  pub reason : String

-- `Prerequisite`: its `Check` is given the owner and may use the client
abbrev pub Prerequisite : Type 0 → Type 0
Prerequisite W = Owner → W → Result PrerequisiteResult × W

abbrev pub status_text : ConditionStatus → String
status_text ConditionStatus.is_true = "True"
status_text ConditionStatus.is_false = "False"
status_text ConditionStatus.is_unknown = "Unknown"

-- what `dependsOnPrerequisite.Check` answers for the condition that it finds
unfoldable pub dependency_of : String → Owner → Option Condition → PrerequisiteResult
dependency_of condition_type owner none = record {
  status = PrerequisiteStatus.not_met;
  reason =
      concat
        ("Condition \"" ∷ condition_type ∷ "\" not found on " ∷ owner.kind ∷ "/" ∷ owner.name ∷ []);
}
dependency_of condition_type owner (some cond) =
    if not (holds cond.status)
    then record {
      status = PrerequisiteStatus.not_met;
      reason = concat (
          "Prerequisite not met: waiting for condition \""
          ∷ condition_type
          ∷ "\" to become True (currently "
          ∷ status_text cond.status
          ∷ ": "
          ∷ cond.message
          ∷ ")"
          ∷ []);
    }
    else record { status = PrerequisiteStatus.met; reason = "" }

-- `DependsOn`
unfoldable pub depends_on : {W : Type 0} → MetaApi → String → Prerequisite W
depends_on meta condition_type owner w = (
  ok (
      dependency_of condition_type owner
        (meta.find_status_condition owner.conditions condition_type)),
  w,
)

-- `Component`, less its lookup by identity; each data cell is its `Clear`
pub record Component (W : Type 0) : Type 0 where
  pub name : String
  pub suspended : Bool
  pub condition_type : String
  pub reconcile_resources : List (ReconcileEntry W)
  pub delete_resources : List (ReconcileEntry W)
  pub orphan_resources : List (Resource W)
  pub grace_period : ℕ
  pub feature_gate : Option Gate
  pub prerequisites : List (Prerequisite W)
  pub data_cells : List (W → W)

-- `prerequisiteBarrierActive`
unfoldable pub prerequisite_barrier_active : Status → Bool
prerequisite_barrier_active Status.unknown = true
prerequisite_barrier_active Status.prerequisite_not_met = true
prerequisite_barrier_active Status.disabled = true
prerequisite_barrier_active Status.feature_gate_error = true
prerequisite_barrier_active _ = false

-- A component with the `convergedAt` that it keeps and the time that its own clock shows.
pub record Clocked (W : Type 0) : Type 0 where
  pub component : Component W
  pub converged_at : ℕ
  pub now : ℕ

-- one round of `EarliestGraceRemaining`
unfoldable pub earlier : Option ℕ → Option ℕ → Option ℕ
earlier earliest none = earliest
earlier none (some remaining) = some remaining
earlier (some earliest) (some remaining) =
    some (if ltb remaining earliest then remaining else earliest)

module _ {W : Type 0} where
  abbrev pub is_managed : ReconcileEntry W → Bool
  is_managed entry = not entry.options.read_only

  -- `managedResources`
  unfoldable pub managed_resources : Component W → List (ReconcileEntry W)
  managed_resources c = select is_managed c.reconcile_resources

  -- `allManagedResources`
  unfoldable pub all_managed_resources : Component W → List (ReconcileEntry W)
  all_managed_resources c = select is_managed c.reconcile_resources ++ c.delete_resources

  -- `GraceRemaining`, given `convergedAt` and the time
  unfoldable pub component_grace_remaining :
      MetaApi → Component W → (converged_at : ℕ) → Owner → (now : ℕ) → Option ℕ
  component_grace_remaining meta c converged_at owner now =
      if c.suspended
      then none
      else grace_remaining (get_condition meta c.condition_type owner) c.grace_period converged_at
          now

  -- `GraceRemaining` of a component with what it keeps and its clock
  unfoldable pub clocked_remaining : MetaApi → Owner → Clocked W → Option ℕ
  clocked_remaining meta owner p =
      component_grace_remaining meta p.component p.converged_at owner p.now

  unfoldable pub earliest_from : MetaApi → Option ℕ → Owner → List (Clocked W) → Option ℕ
  earliest_from meta earliest owner [] = earliest
  earliest_from meta earliest owner (p ∷ comps) =
      earliest_from meta (earlier earliest (clocked_remaining meta owner p)) owner comps

  -- `EarliestGraceRemaining`
  unfoldable pub earliest_grace_remaining : MetaApi → Owner → List (Clocked W) → Option ℕ
  earliest_grace_remaining meta owner comps = earliest_from meta none owner comps
