-- ===== src/Component/Untouched.antt =====
-- A reconciliation touches no other condition of the owner than the component's.
use operator_component_frame.Prelude.{
  ℕ, String, ◌≡◌, refl, ◌∙◌, Bool, true, false, Option, none, some, List, [], ◌∷◌, Result, ok, err,
  str_eq,
}
use operator_component_frame.Condition.{
  Condition, condition_disabled, condition_feature_gate_error, condition_prerequisite_not_met,
  suspending_condition,
}
use operator_component_frame.Aggregate.{get_condition}
use operator_component_frame.Feature.{Gate}
use operator_component_frame.Resource.{
  ReconcileResult, ReconcileEntry, Resource, Object, Suspendable,
}
use operator_component_frame.Cluster.{State, Call}
use operator_component_frame.Cluster.Monad.{Action, ◌>>=◌, gets, pure}
use operator_component_frame.Cluster.Sends.{Sends}
use operator_component_frame.Orphan.{orphan_resources}
use operator_component_frame.Orphan.Sent.{orphan_all-IsSent}
use operator_component_frame.Suspend.{suspend_resources, suspend_all, suspend_round, Suspended}
use operator_component_frame.Component.{
  Component, Prerequisite, PrerequisiteResult, PrerequisiteStatus, managed_resources,
}
use operator_component_frame.Component.Frame.{
  IsFramed, IsFramed-trans, of_same_owner, Frames, frame_rules, pure-Frames, bind-Frames,
}
use operator_component_frame.Component.Framed.{
  set-Frames, replace-Frames, report-Frames, fail_reporting-Frames, failing-Frames,
  clear_cells-Frames, check_mapper-Frames, evaluate_prerequisites-Frames, delete_resources-Frames,
  reconcile_resources-Frames, suspend_resource-same_owner,
}
use operator_component_frame.Component.Typing.{converged_condition-type}
use operator_component_frame.Component.Phases.{
  Progress, Context, if_proceeding, report, tidy, after_gate, check_gate, prerequisite_verdict,
  after_prerequisites, barrier, check_prerequisites, suspend_component, check_suspension, prologue,
  store_converged, record_convergence, converge, finish, after_converge, after_prologue, reconcile,
  converged_condition,
}

module _ {W : Type 0} (x : Context W) (c : Component W) (t : String)
    (other : str_eq c.condition_type t ≡ false) where
  suspend_round-same_owner :
      (name : String) (entry : ReconcileEntry W) (o : Option (Suspendable W))
      (rest : State W → Suspended x.api) (s : State W)
      → ((u : State W) → (rest u).1.owner ≡ u.owner)
      → (suspend_round x.api x.len name entry o rest s).1.owner ≡ s.owner
  unfolding suspend_round
  suspend_round-same_owner name entry none rest s h = h s
  suspend_round-same_owner name entry (some r) rest s h =
      h _ ∙ suspend_resource-same_owner x c t other name entry s r

  suspend_all-same_owner :
      (name : String) (entries : List (ReconcileEntry W)) (s : State W)
      → (suspend_all x.api x.len name entries s).1.owner ≡ s.owner
  unfolding suspend_all
  suspend_all-same_owner name [] s = refl
  suspend_all-same_owner name (entry ∷ entries) s =
      suspend_round-same_owner name entry entry.resource.suspendable
        (suspend_all x.api x.len name entries) s (suspend_all-same_owner name entries)

  suspend_resources-Frames :
      (name : String) (entries : List (ReconcileEntry W))
      → Frames x t (suspend_resources x.api x.len name entries)
  unfolding suspend_resources
  suspend_resources-Frames name entries = record {
    from = λ s. of_same_owner x t s _ (suspend_all-same_owner name entries s);
  }

  store_converged-Frames :
      (previous cond : Condition)
      → cond.condition_type ≡ c.condition_type
      → Frames x t (store_converged x c previous cond)
  unfolding store_converged
  store_converged-Frames previous cond h = search (
    frame_rules,
    set-Frames x c t other cond h,
    replace-Frames x c t other (record cond { last_transition_time = x.now }) h,
  )

  record_convergence-Frames :
      (results : List (ReconcileResult W)) → Frames x t (record_convergence x c results)
  unfolding record_convergence ◌>>=◌ gets
  record_convergence-Frames results = record {
    from = λ s.
        (store_converged-Frames (get_condition x.meta c.condition_type s.owner)
            (converged_condition x c results s) (converged_condition-type x c results s)).from
          s;
  }

  converge-Frames : Frames x t (converge x c)
  unfolding converge
  converge-Frames =
      bind-Frames x t _ _
        (failing-Frames x c t other _
          (reconcile_resources-Frames x c t other c.name c.reconcile_resources))
        record_convergence-Frames

  module _
      (retry-Sends : (P : Call → Type 0) (m : Action W (Option Object))
        → Sends P m
        → Sends P (x.retry m)) where
    orphan_resources-Frames :
        (rs : List (Resource W)) → Frames x t (orphan_resources x.api x.retry rs)
    unfolding orphan_resources
    orphan_resources-Frames rs = record {
      from = λ s.
          of_same_owner x t s _
            (orphan_all-IsSent x.api s.owner.uid x.retry (retry-Sends _) rs s).same_owner;
    }

    tidy-Frames :
        (reason : String) (entries : List (ReconcileEntry W)) → Frames x t (tidy x c reason entries)
    unfolding tidy
    tidy-Frames reason entries =
        bind-Frames x t _ _
          (failing-Frames x c t other _ (delete_resources-Frames x c t other reason entries))
          (λ u. failing-Frames x c t other _ (orphan_resources-Frames c.orphan_resources))

    tidy_and :
        (reason : String) (entries : List (ReconcileEntry W)) (condition_for : ℕ → Condition)
        → ((n : ℕ) → (condition_for n).condition_type ≡ c.condition_type)
        → Frames x t (
            tidy x c reason entries >>= λ u.
            report x c condition_for >>= λ v. pure Progress.finished)
    tidy_and reason entries condition_for h = bind-Frames x t _ _ (tidy-Frames reason entries) (λ u.
        bind-Frames x t _ _ (report-Frames x c t other condition_for h)
          (λ v. pure-Frames x t Progress.finished))

    check_gate-Frames : (g : Option Gate) → Frames x t (check_gate x c g)
    unfolding check_gate after_gate condition_feature_gate_error condition_disabled
    check_gate-Frames none = pure-Frames x t Progress.proceed
    check_gate-Frames (some (err e)) = fail_reporting-Frames x c t other _ e (λ n. refl)
    check_gate-Frames (some (ok true)) = pure-Frames x t Progress.proceed
    check_gate-Frames (some (ok false)) = tidy_and _ _ _ (λ n. refl)

    prerequisite_verdict-Frames :
        (status : PrerequisiteStatus) (reason : String)
        → Frames x t (prerequisite_verdict x c status reason)
    unfolding prerequisite_verdict condition_prerequisite_not_met
    prerequisite_verdict-Frames PrerequisiteStatus.not_met reason =
        bind-Frames x t _ _ (report-Frames x c t other _ (λ n. refl))
          (λ u. pure-Frames x t Progress.finished)
    prerequisite_verdict-Frames PrerequisiteStatus.met reason = pure-Frames x t Progress.proceed
    prerequisite_verdict-Frames (PrerequisiteStatus.unrecognized word) reason =
        pure-Frames x t Progress.proceed

    after_prerequisites-Frames :
        (r : Result PrerequisiteResult) → Frames x t (after_prerequisites x c r)
    unfolding after_prerequisites condition_prerequisite_not_met
    after_prerequisites-Frames (err e) = fail_reporting-Frames x c t other _ e (λ n. refl)
    after_prerequisites-Frames (ok r) = prerequisite_verdict-Frames r.status r.reason

    barrier-Frames : (active : Bool) → Frames x t (barrier x c active)
    unfolding barrier
    barrier-Frames active =
        let h = evaluate_prerequisites-Frames x c t other c.prerequisites in
        search (frame_rules, after_prerequisites-Frames) depth 20

    check_prerequisites-Frames :
        (ps : List (Prerequisite W)) → Frames x t (check_prerequisites x c ps)
    unfolding check_prerequisites
    check_prerequisites-Frames [] = pure-Frames x t Progress.proceed
    check_prerequisites-Frames (p ∷ ps) = search (frame_rules, barrier-Frames) depth 20

    suspend_component-Frames : Frames x t (suspend_component x c)
    unfolding suspend_component suspending_condition
    suspend_component-Frames =
        bind-Frames x t _ _
          (failing-Frames x c t other _ (suspend_resources-Frames c.name (managed_resources c)))
          (λ results. bind-Frames x t _ _ (report-Frames x c t other _ (λ n. refl)) (λ u.
            bind-Frames x t _ _ (tidy-Frames _ c.delete_resources)
              (λ v. pure-Frames x t Progress.finished)))

    check_suspension-Frames : Frames x t (check_suspension x c)
    unfolding check_suspension
    check_suspension-Frames = let h = suspend_component-Frames in search frame_rules

    if_proceeding-Frames :
        (p : Progress) (next : Action W Progress)
        → Frames x t next
        → Frames x t (if_proceeding p next)
    unfolding if_proceeding
    if_proceeding-Frames Progress.finished next h = pure-Frames x t Progress.finished
    if_proceeding-Frames Progress.proceed next h = h

    prologue-Frames : Frames x t (prologue x c)
    unfolding prologue
    prologue-Frames =
        let h = clear_cells-Frames x c t other c.data_cells in
        let k = check_mapper-Frames x c t other in
        let l = check_suspension-Frames in
        search (frame_rules, check_gate-Frames, check_prerequisites-Frames, if_proceeding-Frames)
          depth 20

    after_converge-IsFramed :
        (s : State W) (r : Result (Unit {0})) (u : State W)
        → IsFramed x t s u
        → IsFramed x t s (after_converge x c r u).state
    unfolding after_converge finish
    after_converge-IsFramed s (err e) u h = h
    after_converge-IsFramed s (ok v) u h =
        IsFramed-trans x t s u _ h ((tidy-Frames _ c.delete_resources).from u)

    after_prologue-IsFramed :
        (s : State W) (r : Result Progress) (u : State W)
        → IsFramed x t s u
        → IsFramed x t s (after_prologue x c r u).state
    unfolding after_prologue
    after_prologue-IsFramed s (err e) u h = h
    after_prologue-IsFramed s (ok Progress.finished) u h = h
    after_prologue-IsFramed s (ok Progress.proceed) u h =
        after_converge-IsFramed s (converge x c u).0 (converge x c u).1
          (IsFramed-trans x t s u _ h (converge-Frames.from u))

-- Where a retry sends nothing that its attempts do not send, a reconciliation leaves the owner's
-- condition of every type but the component's as it is, and also the owner's UID, kind and
-- generation, however it ends.
pub reconcile-IsFramed :
    {W : Type 0} (x : Context W) (c : Component W) (t : String)
    → str_eq c.condition_type t ≡ false
    → ((P : Call → Type 0) (m : Action W (Option Object)) → Sends P m → Sends P (x.retry m))
    → (s : State W) → IsFramed x t s (reconcile x c s).state
unfolding reconcile
reconcile-IsFramed x c t other retry-Sends s =
    after_prologue-IsFramed x c t other retry-Sends s (prologue x c s).0 (prologue x c s).1
      ((prologue-Frames x c t other retry-Sends).from s)
