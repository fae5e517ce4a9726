-- ===== src/Component/Reported.antt =====
-- Every error of a reconciliation is told by the component's condition.
use operator_component_frame.Prelude.{
  String, ◌≡◌, Bool, true, false, Option, none, some, List, [], ◌∷◌, Result, ok, err, Error, arith,
}
use operator_component_frame.Feature.{Gate}
use operator_component_frame.Resource.{ReconcileEntry}
use operator_component_frame.Cluster.{State}
use operator_component_frame.Cluster.Monad.{Action}
use operator_component_frame.Component.{
  Component, Prerequisite, PrerequisiteResult, PrerequisiteStatus,
}
use operator_component_frame.Component.Reporting.{
  IsReported, Reports, reports_rules, pure-Reports, fail_reporting-Reports, gate_error-IsTelling,
  prerequisite-IsTelling, or_fail-Reports, failing-Reports,
}
use operator_component_frame.Component.Phases.{
  Progress, error_of, Context, clear_cells, if_proceeding, apply_status_condition, check_mapper,
  tidy, after_gate, check_gate, prerequisite_verdict, after_prerequisites, barrier,
  check_prerequisites, suspend_component, check_suspension, prologue, store_converged,
  record_convergence, converge, finish, after_converge, after_prologue, reconcile,
}

module _ {W : Type 0} (x : Context W) (c : Component W) where
  clear_cells-Reports : (cells : List (W → W)) → Reports x c (clear_cells cells)
  unfolding clear_cells
  clear_cells-Reports [] = pure-Reports x c tt
  clear_cells-Reports (clear ∷ cells) = let h = clear_cells-Reports cells in search reports_rules

  check_mapper-Reports : Reports x c (check_mapper x c)
  unfolding check_mapper
  check_mapper-Reports = search (reports_rules, or_fail-Reports)

  tidy-Reports :
      (reason : String) (entries : List (ReconcileEntry W)) → Reports x c (tidy x c reason entries)
  unfolding tidy
  tidy-Reports reason entries = search (reports_rules, failing-Reports)

  check_gate-Reports : (g : Option Gate) → Reports x c (check_gate x c g)
  unfolding check_gate after_gate
  check_gate-Reports none = pure-Reports x c Progress.proceed
  check_gate-Reports (some (err e)) = fail_reporting-Reports x c _ e (gate_error-IsTelling x c e)
  check_gate-Reports (some (ok true)) = pure-Reports x c Progress.proceed
  check_gate-Reports (some (ok false)) = search (reports_rules, tidy-Reports) depth 20

  prerequisite_verdict-Reports :
      (status : PrerequisiteStatus) (reason : String)
      → Reports x c (prerequisite_verdict x c status reason)
  unfolding prerequisite_verdict
  prerequisite_verdict-Reports PrerequisiteStatus.not_met reason = search reports_rules
  prerequisite_verdict-Reports PrerequisiteStatus.met reason = pure-Reports x c Progress.proceed
  prerequisite_verdict-Reports (PrerequisiteStatus.unrecognized word) reason =
      pure-Reports x c Progress.proceed

  after_prerequisites-Reports :
      (r : Result PrerequisiteResult) → Reports x c (after_prerequisites x c r)
  unfolding after_prerequisites
  after_prerequisites-Reports (err e) =
      fail_reporting-Reports x c _ e (prerequisite-IsTelling x c e)
  after_prerequisites-Reports (ok r) = prerequisite_verdict-Reports r.status r.reason

  barrier-Reports : (active : Bool) → Reports x c (barrier x c active)
  unfolding barrier
  barrier-Reports active = search (reports_rules, after_prerequisites-Reports) depth 20

  check_prerequisites-Reports :
      (ps : List (Prerequisite W)) → Reports x c (check_prerequisites x c ps)
  unfolding check_prerequisites
  check_prerequisites-Reports [] = pure-Reports x c Progress.proceed
  check_prerequisites-Reports (p ∷ ps) = search (reports_rules, barrier-Reports) depth 20

  check_suspension-Reports : Reports x c (check_suspension x c)
  unfolding check_suspension suspend_component
  check_suspension-Reports = search (reports_rules, failing-Reports, tidy-Reports) depth 20

  if_proceeding-Reports :
      (p : Progress) (next : Action W Progress)
      → Reports x c next
      → Reports x c (if_proceeding p next)
  unfolding if_proceeding
  if_proceeding-Reports Progress.finished next h = pure-Reports x c Progress.finished
  if_proceeding-Reports Progress.proceed next h = h

  prologue-Reports : Reports x c (prologue x c)
  unfolding prologue
  prologue-Reports =
      search
        (
          reports_rules, clear_cells-Reports, check_mapper-Reports, check_gate-Reports,
          check_prerequisites-Reports, check_suspension-Reports, if_proceeding-Reports,
        )
        depth 20

  converge-Reports : Reports x c (converge x c)
  unfolding converge record_convergence store_converged apply_status_condition
  converge-Reports = search (reports_rules, failing-Reports) depth 20

  of_error_of : {A : Type 0} (r : Result A) (e : Error) → error_of x c r ≡ some e → r ≡ err e
  of_error_of (ok a) e h = ground arith
  of_error_of (err z) e h = ground arith

  finish_reports :
      (s : State W) (e : Error)
      → (finish x c s).error ≡ some e
      → IsReported x c e (finish x c s).state
  unfolding finish
  finish_reports s e h =
      (tidy-Reports "resource deletion flag" c.delete_resources).when_error s e
        (of_error_of (tidy x c "resource deletion flag" c.delete_resources s).0 e h)

  after_converge_reports :
      (r : Result (Unit {0})) (s : State W) (e : Error)
      → ((z : Error) → r ≡ err z → IsReported x c z s)
      → (after_converge x c r s).error ≡ some e
      → IsReported x c e (after_converge x c r s).state
  unfolding after_converge
  after_converge_reports (err z) s e k h = k e (of_error_of (err z) e h)
  after_converge_reports (ok u) s e k h = finish_reports s e h

  after_prologue_reports :
      (r : Result Progress) (s : State W) (e : Error)
      → ((z : Error) → r ≡ err z → IsReported x c z s)
      → (after_prologue x c r s).error ≡ some e
      → IsReported x c e (after_prologue x c r s).state
  unfolding after_prologue
  after_prologue_reports (err z) s e k h = k e (of_error_of (err z) e h)
  after_prologue_reports (ok Progress.finished) s e k h = ground arith
  after_prologue_reports (ok Progress.proceed) s e k h =
      after_converge_reports (converge x c s).0 (converge x c s).1 e (converge-Reports.when_error s)
        h

  -- If `Reconcile` returns an error, whichever phase it comes from, the owner is left with a
  -- condition of the component that is False and has the text of the error as its message.
  pub reconcile-IsReported :
      (s : State W) (e : Error)
      → (reconcile x c s).error ≡ some e
      → IsReported x c e (reconcile x c s).state
  unfolding reconcile
  reconcile-IsReported s e h =
      after_prologue_reports (prologue x c s).0 (prologue x c s).1 e (prologue-Reports.when_error s)
        h
