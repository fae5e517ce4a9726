-- ===== src/Component/Framed.antt =====
-- The steps of a reconciliation leave every other condition of the owner as it is.
use operator_component_frame.Prelude.{
  ℕ, String, ◌≡◌, refl, false, List, [], ◌∷◌, Result, ok, err, Error, arith, str_eq,
}
use operator_component_frame.Condition.{Condition, Owner, replace_status_condition, condition_error}
use operator_component_frame.Condition.Meta.{find-replace_status_condition}
use operator_component_frame.Resource.{ReconcileEntry}
use operator_component_frame.Cluster.{State}
use operator_component_frame.Cluster.Monad.{Action, change_conditions}
use operator_component_frame.Delete.{delete_resources}
use operator_component_frame.Delete.Safety.{delete_all-IsSent}
use operator_component_frame.Pipeline.{reconcile_resources}
use operator_component_frame.Pipeline.Sent.{reconcile_from-Sends}
use operator_component_frame.Suspend.{suspend_resource}
use operator_component_frame.Suspend.Sent.{suspend_resource-SendsFor}
use operator_component_frame.Component.{
  Component, Prerequisite, PrerequisiteResult, PrerequisiteStatus,
}
use operator_component_frame.Component.Frame.{
  of_same_owner, Frames, Sends-Frames, frame_rules, pure-Frames, fail_with-Frames, bind-Frames,
  gets-Frames,
}
use operator_component_frame.Component.Phases.{
  Context, clear_cells, apply_status_condition, report, fail_reporting, or_fail, failing,
  check_mapper, evaluate_prerequisites, next_prerequisite,
}

module _ {W : Type 0} (x : Context W) (c : Component W) (t : String)
    (other : str_eq c.condition_type t ≡ false) where
  pub set-Frames :
      (cond : Condition)
      → cond.condition_type ≡ c.condition_type
      → Frames x t (apply_status_condition x c cond)
  unfolding apply_status_condition change_conditions
  set-Frames cond h = record {
    from = λ s. record {
      same_condition = ground (arith, x.meta.find-set s.owner.conditions cond x.wall t);
      same_uid = refl;
      same_kind = refl;
      same_generation = refl;
    };
  }

  pub replace-Frames :
      (cond : Condition)
      → cond.condition_type ≡ c.condition_type
      → Frames x t (change_conditions (λ cs. replace_status_condition cs cond))
  unfolding change_conditions
  replace-Frames cond h = record {
    from = λ s. record {
      same_condition =
          ground (arith, find-replace_status_condition x.meta s.owner.conditions cond t);
      same_uid = refl;
      same_kind = refl;
      same_generation = refl;
    };
  }

  pub report-Frames :
      (condition_for : ℕ → Condition)
      → ((n : ℕ) → (condition_for n).condition_type ≡ c.condition_type)
      → Frames x t (report x c condition_for)
  unfolding report
  report-Frames condition_for h =
      bind-Frames x t _ _ (gets-Frames x t _)
        (λ (o : Owner). set-Frames (condition_for o.generation) (h o.generation))

  pub fail_reporting-Frames :
      {A : Type 0} (condition_for : ℕ → Condition) (e : Error)
      → ((n : ℕ) → (condition_for n).condition_type ≡ c.condition_type)
      → Frames x t (fail_reporting x c {A = A} condition_for e)
  unfolding fail_reporting
  fail_reporting-Frames condition_for e h =
      bind-Frames x t _ _ (report-Frames condition_for h) (λ u. fail_with-Frames x t e)

  error_type :
      (e : Error) (n : ℕ) → (condition_error c.condition_type e n).condition_type ≡ c.condition_type
  unfolding condition_error
  error_type e n = refl

  pub or_fail-Frames : {A : Type 0} (r : Result A) → Frames x t (or_fail x c r)
  unfolding or_fail
  or_fail-Frames (ok a) = pure-Frames x t a
  or_fail-Frames (err e) = fail_reporting-Frames _ e (error_type e)

  pub failing-Frames : {A : Type 0} (m : Action W A) → Frames x t m → Frames x t (failing x c m)
  unfolding failing
  failing-Frames m h = search (frame_rules, or_fail-Frames)

  pub clear_cells-Frames : (cells : List (W → W)) → Frames x t (clear_cells cells)
  unfolding clear_cells
  clear_cells-Frames [] = pure-Frames x t tt
  clear_cells-Frames (clear ∷ cells) = let h = clear_cells-Frames cells in search frame_rules

  pub check_mapper-Frames : Frames x t (check_mapper x c)
  unfolding check_mapper
  check_mapper-Frames = search (frame_rules, or_fail-Frames)

  pub next_prerequisite-Frames :
      (r : PrerequisiteResult) (status : PrerequisiteStatus) (rest : Action W PrerequisiteResult)
      → Frames x t rest
      → Frames x t (next_prerequisite r status rest)
  unfolding next_prerequisite
  next_prerequisite-Frames r PrerequisiteStatus.met rest h = h
  next_prerequisite-Frames r PrerequisiteStatus.not_met rest h = pure-Frames x t r
  next_prerequisite-Frames r (PrerequisiteStatus.unrecognized word) rest h = fail_with-Frames x t _

  pub evaluate_prerequisites-Frames :
      (ps : List (Prerequisite W)) → Frames x t (evaluate_prerequisites ps)
  unfolding evaluate_prerequisites
  evaluate_prerequisites-Frames [] = pure-Frames x t _
  evaluate_prerequisites-Frames (p ∷ ps) =
      let h = evaluate_prerequisites-Frames ps in
      search (frame_rules, next_prerequisite-Frames) depth 20

  pub delete_resources-Frames :
      (reason : String) (entries : List (ReconcileEntry W))
      → Frames x t (delete_resources x.api reason entries)
  unfolding delete_resources
  delete_resources-Frames reason entries = record {
    from = λ s. of_same_owner x t s _ (delete_all-IsSent x.api reason entries s).same_owner;
  }

  pub reconcile_resources-Frames :
      (name : String) (entries : List (ReconcileEntry W))
      → Frames x t (reconcile_resources x.api x.len name entries)
  unfolding reconcile_resources
  reconcile_resources-Frames name entries =
      bind-Frames x t _ _ (gets-Frames x t _)
        (λ owner. Sends-Frames x t _ (reconcile_from-Sends x.api name _ entries))

  pub suspend_resource-same_owner :
      (name : String) (entry : ReconcileEntry W) (s : State W) (r : _)
      → (suspend_resource x.api x.len name entry r s).1.owner ≡ s.owner
  suspend_resource-same_owner name entry s r =
      ((suspend_resource-SendsFor x.api x.len name s.owner entry r).from s refl).same_owner
