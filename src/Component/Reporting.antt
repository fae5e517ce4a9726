-- ===== src/Component/Reporting.antt =====
-- Actions whose errors are told by the component's condition.
use operator_component_frame.Prelude.{
  ℕ, ◌≡◌, refl, sym, ◌∙◌, ap, Bool, true, false, Option, none, some, List, Result, ok, err, Error,
  if◌then◌else◌, arith, eq_iff,
}
use mathlib.Core.Path.{subst}
use operator_component_frame.Condition.{
  Condition, ConditionStatus, condition_error, condition_feature_gate_error,
  condition_prerequisite_not_met,
}
use operator_component_frame.Condition.Meta.{stored}
use operator_component_frame.Cluster.{State}
use operator_component_frame.Cluster.Monad.{
  Action, pure, fail_with, ◌>>=◌, attempt, gets, change_outside, change_conditions, continue,
}
use operator_component_frame.Component.{Component}
use operator_component_frame.Component.Phases.{
  Context, apply_status_condition, report, fail_reporting, or_fail, failing,
}

ok_not_err : {A : Type 0} {a : A} {e : Error} → ok a ≡ err e → ⊥
ok_not_err h = ground arith

err_inj : {A : Type 0} {e z : Error} → ◌≡◌ {A = Result A} (err e) (err z) → e ≡ z
err_inj {A = A} {e = e} h = ap (λ (r : Result A). elim r [ ok a ↦ e | err y ↦ y ]) h

module _ {W : Type 0} (x : Context W) (c : Component W) where
  -- The owner has a condition of the component that is False and has the text of the error.
  pub record IsReported (e : Error) (s : State W) : Type 0 where
    pub found : Condition
    pub is_found : x.meta.find_status_condition s.owner.conditions c.condition_type ≡ some found
    pub is_down : found.status ≡ ConditionStatus.is_false
    pub tells : found.message ≡ e.message

  -- Whenever the action fails, the error is reported in the state that it leaves.
  pub record Reports {A : Type 0} (m : Action W A) : Type 0 where
    pub when_error : (s : State W) (e : Error) → (m s).0 ≡ err e → IsReported e (m s).1

  pub pure-Reports : {A : Type 0} (a : A) → Reports (pure a)
  unfolding pure
  pure-Reports a = record { when_error = λ s e h. ground arith }

  pub gets-Reports : {A : Type 0} (f : State W → A) → Reports (gets f)
  unfolding gets
  gets-Reports f = record { when_error = λ s e h. ground arith }

  pub attempt-Reports : {A : Type 0} (m : Action W A) → Reports (attempt m)
  unfolding attempt
  attempt-Reports m = record { when_error = λ s e h. ground arith }

  pub change_outside-Reports : (f : W → W) → Reports (change_outside f)
  unfolding change_outside
  change_outside-Reports f = record { when_error = λ s e h. ground arith }

  pub change_conditions-Reports :
      (f : List Condition → List Condition) → Reports (change_conditions f)
  unfolding change_conditions
  change_conditions-Reports f = record { when_error = λ s e h. ground arith }

  pub continue-Reports :
      {A B : Type 0} (r : Result A × State W) (f : A → Action W B)
      → ((e : Error) → r.0 ≡ err e → IsReported e r.1)
      → ((a : A) → Reports (f a))
      → (e : Error) → (continue r f).0 ≡ err e
      → IsReported e (continue r f).1
  continue-Reports (ok a, t) f h k e q = (k a).when_error t e q
  continue-Reports {B = B} (err z, t) f h k e q =
      h e (ap (λ (r : Result B). elim r [ ok b ↦ err z | err y ↦ err y ]) q)

  pub bind-Reports :
      {A B : Type 0} (m : Action W A) (f : A → Action W B)
      → Reports m
      → ((a : A) → Reports (f a))
      → Reports (m >>= f)
  unfolding ◌>>=◌
  bind-Reports m f h k = record {
    when_error = λ s e q. continue-Reports (m s) f (h.when_error s) k e q;
  }

  pub if-Reports :
      {A : Type 0} (b : Bool) (m n : Action W A)
      → Reports m
      → Reports n
      → Reports (if b then m else n)
  if-Reports true m n h k = h
  if-Reports false m n h k = k

  -- a condition that is False and tells the error
  pub record IsTelling (e : Error) (cond : Condition) : Type 0 where
    pub of_type : cond.condition_type ≡ c.condition_type
    pub is_down : cond.status ≡ ConditionStatus.is_false
    pub tells : cond.message ≡ e.message

  pub stored-IsTelling :
      (o : Option Condition) (cond : Condition) (e : Error)
      → IsTelling e cond
      → IsTelling e (stored o cond x.wall)
  stored-IsTelling none cond e h = record {
    of_type = h.of_type;
    is_down = h.is_down;
    tells = h.tells;
  }
  stored-IsTelling (some old) cond e h = record {
    of_type = ground arith;
    is_down = ground arith;
    tells = ground arith;
  }

  find_set_self :
      (cs : List Condition) (cond : Condition)
      → cond.condition_type ≡ c.condition_type
      → x.meta.find_status_condition (x.meta.set_status_condition cs cond x.wall) c.condition_type
        ≡ some (stored (x.meta.find_status_condition cs cond.condition_type) cond x.wall)
  find_set_self cs cond h = ground (
    arith,
    x.meta.find-set cs cond x.wall c.condition_type,
    eq_iff cond.condition_type c.condition_type,
  )

  report_tells :
      (condition_for : ℕ → Condition) (e : Error) (s : State W)
      → ((n : ℕ) → IsTelling e (condition_for n))
      → IsReported e (report x c condition_for s).1
  unfolding report apply_status_condition ◌>>=◌ gets change_conditions
  report_tells condition_for e s h =
      let cond = condition_for s.owner.generation in
      let old = x.meta.find_status_condition s.owner.conditions cond.condition_type in
      let k = stored-IsTelling old cond e (h s.owner.generation) in
      record {
        found = stored old cond x.wall;
        is_found = find_set_self s.owner.conditions cond (h s.owner.generation).of_type;
        is_down = k.is_down;
        tells = k.tells;
      }

  report_succeeds :
      (condition_for : ℕ → Condition) (s : State W) → (report x c condition_for s).0 ≡ ok tt
  unfolding report apply_status_condition ◌>>=◌ gets change_conditions
  report_succeeds condition_for s = refl

  pub report-Reports : (condition_for : ℕ → Condition) → Reports (report x c condition_for)
  report-Reports condition_for = record {
    when_error = λ s e h. elim (ok_not_err (sym (report_succeeds condition_for s) ∙ h)) [ ];
  }

  pub fail_reporting-Reports :
      {A : Type 0} (condition_for : ℕ → Condition) (e : Error)
      → ((n : ℕ) → IsTelling e (condition_for n))
      → Reports (fail_reporting x c {A = A} condition_for e)
  unfolding fail_reporting ◌>>=◌ fail_with report apply_status_condition gets change_conditions
  fail_reporting-Reports condition_for e h = record {
    when_error = λ s z q.
        subst (λ (y : Error). IsReported y (report x c condition_for s).1) (err_inj q)
          (report_tells condition_for e s h);
  }

  pub error-IsTelling : (e : Error) (n : ℕ) → IsTelling e (condition_error c.condition_type e n)
  unfolding condition_error
  error-IsTelling e n = record { of_type = refl; is_down = refl; tells = refl }

  pub gate_error-IsTelling :
      (e : Error) (n : ℕ) → IsTelling e (condition_feature_gate_error c.condition_type e n)
  unfolding condition_feature_gate_error
  gate_error-IsTelling e n = record { of_type = refl; is_down = refl; tells = refl }

  pub prerequisite-IsTelling :
      (e : Error) (n : ℕ)
      → IsTelling e (condition_prerequisite_not_met c.condition_type e.message n)
  unfolding condition_prerequisite_not_met
  prerequisite-IsTelling e n = record { of_type = refl; is_down = refl; tells = refl }

  pub ruleset reports_rules = (
    pure-Reports, gets-Reports, attempt-Reports, change_outside-Reports, change_conditions-Reports,
    bind-Reports, if-Reports, report-Reports, fail_reporting-Reports, error-IsTelling,
    gate_error-IsTelling, prerequisite-IsTelling,
  )

  pub or_fail-Reports : {A : Type 0} (r : Result A) → Reports (or_fail x c r)
  unfolding or_fail
  or_fail-Reports (ok a) = pure-Reports a
  or_fail-Reports (err e) = fail_reporting-Reports _ e (error-IsTelling e)

  pub failing-Reports : {A : Type 0} (m : Action W A) → Reports (failing x c m)
  unfolding failing
  failing-Reports m = search (reports_rules, or_fail-Reports)
