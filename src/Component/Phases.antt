-- ===== src/Component/Phases.antt =====
-- pkg/component/component.go: `Reconcile`, phase by phase.
use operator_component_frame.Prelude.{
  ℕ, String, Bool, true, false, Option, none, some, List, [], ◌∷◌, Result, ok, err, Error,
  new_error, concat, if◌then◌else◌,
}
use operator_component_frame.Status.{is_converging}
use operator_component_frame.Condition.{
  Condition, suspending_condition, condition_error, condition_feature_gate_error,
  condition_disabled, condition_prerequisite_not_met, replace_status_condition,
}
use operator_component_frame.Condition.Meta.{MetaApi}
use operator_component_frame.Aggregate.{get_condition}
use operator_component_frame.Feature.{Gate}
use operator_component_frame.Resource.{ReconcileEntry, ReconcileResult}
use operator_component_frame.Cluster.{Api, State}
use operator_component_frame.Cluster.Monad.{
  Action, pure, fail_with, ◌>>=◌, ◌>>◌, attempt, gets, outside, change_outside, change_conditions,
}
use operator_component_frame.Converge.{filter_participators}
use operator_component_frame.Machine.{new_converging_status_condition}
use operator_component_frame.Delete.{delete_resources}
use operator_component_frame.Orphan.{Retry, orphan_resources}
use operator_component_frame.Pipeline.{reconcile_resources}
use operator_component_frame.Suspend.{suspend_resources, suspension_summary}
use operator_component_frame.Component.{
  Component, Prerequisite, PrerequisiteResult, PrerequisiteStatus, prerequisite_barrier_active,
  managed_resources, all_managed_resources,
}

-- How a phase ends, if not with an error: `Reconcile` returns, or goes on.
pub data Progress : Type 0 where
  finished proceed : Progress

-- What `Reconcile` calls outside of the package: the client, the condition helpers, the retry, the
-- number of bytes of a text, the component's clock, and the clock of `SetStatusCondition`.
pub record Context (W : Type 0) : Type 0 where
  pub api : Api W
  pub meta : MetaApi
  pub retry : Retry W
  pub len : String → ℕ
  pub now : ℕ
  pub wall : ℕ

module _ {W : Type 0} where
  -- `Reconcile` clears the data cells
  unfoldable pub clear_cells : List (W → W) → Action W (Unit {0})
  clear_cells [] = pure tt
  clear_cells (clear ∷ cells) = do change_outside clear; clear_cells cells

  unfoldable pub next_prerequisite :
      PrerequisiteResult
      → PrerequisiteStatus
      → Action W PrerequisiteResult
      → Action W PrerequisiteResult
  next_prerequisite result PrerequisiteStatus.met rest = rest
  next_prerequisite result PrerequisiteStatus.not_met rest = pure result
  next_prerequisite result (PrerequisiteStatus.unrecognized word) rest =
      fail_with
        (new_error (concat ("prerequisite returned unrecognized status \"" ∷ word ∷ "\"" ∷ [])))

  -- `evaluatePrerequisites`
  unfoldable pub evaluate_prerequisites : List (Prerequisite W) → Action W PrerequisiteResult
  evaluate_prerequisites [] = pure (record { status = PrerequisiteStatus.met; reason = "" })
  evaluate_prerequisites (check ∷ prerequisites) = do
    owner ← gets (λ s. s.owner)
    result ← outside (check owner)
    next_prerequisite result result.status (evaluate_prerequisites prerequisites)

  unfoldable pub if_proceeding : Progress → Action W Progress → Action W Progress
  if_proceeding Progress.finished next = pure Progress.finished
  if_proceeding Progress.proceed next = next

-- What `Reconcile` leaves: its error, the state, and the component's `convergedAt`.
pub record Reconciled (W : Type 0) : Type 0 where
  pub error : Option Error
  pub state : State W
  pub converged_at : ℕ

module _ {W : Type 0} (x : Context W) (c : Component W) where
  -- `applyStatusCondition`
  unfoldable pub apply_status_condition : Condition → Action W (Unit {0})
  apply_status_condition cond = change_conditions (λ cs. x.meta.set_status_condition cs cond x.wall)

  -- a condition made for the generation of the owner is applied
  unfoldable pub report : (ℕ → Condition) → Action W (Unit {0})
  report condition_for = do
    owner ← gets (λ s. s.owner)
    apply_status_condition (condition_for owner.generation)

  -- an error is returned, after a condition that tells it
  unfoldable pub fail_reporting : {A : Type 0} → (ℕ → Condition) → Error → Action W A
  fail_reporting condition_for e = do report condition_for; fail_with e

  -- `fail`, for a result that may be an error
  unfoldable pub or_fail : {A : Type 0} → Result A → Action W A
  or_fail (ok a) = pure a
  or_fail (err e) = fail_reporting (condition_error c.condition_type e) e

  unfoldable pub failing : {A : Type 0} → Action W A → Action W A
  failing m = do r ← attempt m; or_fail r

  unfoldable pub check_mapper : Action W (Unit {0})
  check_mapper =
      if x.api.has_rest_mapper
      then pure tt
      else or_fail (
          err (
            new_error
              "ReconcileContext.Client.RESTMapper() returned nil; a valid RESTMapper is required for reconciliation"))

  -- the deletions and the releases that end a reconciliation
  unfoldable pub tidy : String → List (ReconcileEntry W) → Action W (Unit {0})
  tidy reason entries = do
    failing (delete_resources x.api reason entries)
    failing (orphan_resources x.api x.retry c.orphan_resources)

  unfoldable pub after_gate : Gate → Action W Progress
  after_gate (err e) = fail_reporting (condition_feature_gate_error c.condition_type e) e
  after_gate (ok true) = pure Progress.proceed
  after_gate (ok false) = do
    tidy "disabled feature gate" (all_managed_resources c)
    report (condition_disabled c.condition_type)
    pure Progress.finished

  unfoldable pub check_gate : Option Gate → Action W Progress
  check_gate none = pure Progress.proceed
  check_gate (some gate) = after_gate gate

  unfoldable pub prerequisite_verdict : PrerequisiteStatus → String → Action W Progress
  prerequisite_verdict PrerequisiteStatus.not_met reason = do
    report (condition_prerequisite_not_met c.condition_type reason)
    pure Progress.finished
  prerequisite_verdict _ reason = pure Progress.proceed

  unfoldable pub after_prerequisites : Result PrerequisiteResult → Action W Progress
  after_prerequisites (err e) =
      fail_reporting (condition_prerequisite_not_met c.condition_type e.message) e
  after_prerequisites (ok result) = prerequisite_verdict result.status result.reason

  unfoldable pub barrier : Bool → Action W Progress
  barrier active =
      if active
      then (do r ← attempt (evaluate_prerequisites c.prerequisites); after_prerequisites r)
      else pure Progress.proceed

  -- the prerequisites of `Reconcile`
  unfoldable pub check_prerequisites : List (Prerequisite W) → Action W Progress
  check_prerequisites [] = pure Progress.proceed
  check_prerequisites (p ∷ ps) = do
    owner ← gets (λ s. s.owner)
    barrier (prerequisite_barrier_active (get_condition x.meta c.condition_type owner).reason)

  unfoldable pub suspend_component : Action W Progress
  suspend_component = do
    results ← failing (suspend_resources x.api x.len c.name (managed_resources c))
    report (suspending_condition c.condition_type (suspension_summary results))
    tidy "resource deletion flag" c.delete_resources
    pure Progress.finished

  unfoldable pub check_suspension : Action W Progress
  check_suspension = if c.suspended then suspend_component else pure Progress.proceed

  -- `Reconcile` up to the resources
  unfoldable pub prologue : Action W Progress
  prologue = do
    clear_cells c.data_cells
    check_mapper
    gated ← check_gate c.feature_gate
    met ← if_proceeding gated (check_prerequisites c.prerequisites)
    if_proceeding met check_suspension

  -- the condition of the component after its resources, given the one before
  unfoldable pub converged_condition : List (ReconcileResult W) → State W → Condition
  converged_condition results s =
      new_converging_status_condition s.env s.owner (filter_participators results) c.grace_period
        (get_condition x.meta c.condition_type s.owner) x.now

  -- how `Reconcile` stores it: entering convergence stamps the transition time
  unfoldable pub store_converged : Condition → Condition → Action W (Unit {0})
  store_converged previous cond =
      if is_converging previous.reason
      then apply_status_condition cond
      else change_conditions
          (λ cs. replace_status_condition cs (record cond { last_transition_time = x.now }))

  unfoldable pub record_convergence : List (ReconcileResult W) → Action W (Unit {0})
  record_convergence results = do
    cond ← gets (converged_condition results)
    owner ← gets (λ s. s.owner)
    store_converged (get_condition x.meta c.condition_type owner) cond

  -- the resources of `Reconcile`
  unfoldable pub converge : Action W (Unit {0})
  converge = do
    results ← failing (reconcile_resources x.api x.len c.name c.reconcile_resources)
    record_convergence results

  abbrev pub error_of : {A : Type 0} → Result A → Option Error
  error_of (ok a) = none
  error_of (err e) = some e

  -- `Reconcile` from the deletions on
  unfoldable pub finish : State W → Reconciled W
  finish s =
      let (r, t) = tidy "resource deletion flag" c.delete_resources s in
      record { error = error_of r; state = t; converged_at = x.now }

  unfoldable pub after_converge : Result (Unit {0}) → State W → Reconciled W
  after_converge (err e) s = record { error = some e; state = s; converged_at = 0 }
  after_converge (ok u) s = finish s

  unfoldable pub after_prologue : Result Progress → State W → Reconciled W
  after_prologue (err e) s = record { error = some e; state = s; converged_at = 0 }
  after_prologue (ok Progress.finished) s = record { error = none; state = s; converged_at = 0 }
  after_prologue (ok Progress.proceed) s = let (r, t) = converge s in after_converge r t

  -- `Reconcile`
  unfoldable pub reconcile : State W → Reconciled W
  reconcile s = let (r, t) = prologue s in after_prologue r t
