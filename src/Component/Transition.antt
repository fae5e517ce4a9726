-- ===== src/Component/Transition.antt =====
-- When a reconciliation moves the transition time of the component's condition.
use operator_component_frame.Prelude.{◌≡◌, refl, sym, Bool, true, false, some, List, arith, eq_iff}
use mathlib.Core.Path.{subst}
use operator_component_frame.Status.{is_converging}
use operator_component_frame.Condition.{Condition, Owner}
use operator_component_frame.Condition.Meta.{find-replace_status_condition, stored, same_status}
use operator_component_frame.Aggregate.{get_condition}
use operator_component_frame.Resource.{ReconcileResult}
use operator_component_frame.Cluster.{State}
use operator_component_frame.Cluster.Monad.{◌>>=◌, change_conditions, gets}
use operator_component_frame.Component.{Component}
use operator_component_frame.Component.Phases.{
  Context, apply_status_condition, store_converged, record_convergence, converged_condition,
}
use operator_component_frame.Component.Typing.{converged_condition-type}

module _ {W : Type 0} (x : Context W) (c : Component W) where
  -- What becomes of a condition `previous` when the reconciliation concludes `cond`.
  pub record IsUpdated (previous cond after : Condition) : Type 0 where
    pub concluded :
        (after.status ≡ cond.status) × (after.reason ≡ cond.reason) × (after.message ≡ cond.message)
    pub stamped : is_converging previous.reason ≡ false → after.last_transition_time ≡ x.now
    pub kept :
        is_converging previous.reason ≡ true
        → same_status previous.status cond.status ≡ true
        → after.last_transition_time ≡ previous.last_transition_time

  pub get_condition-found :
      (owner : Owner) (p : Condition)
      → x.meta.find_status_condition owner.conditions c.condition_type ≡ some p
      → get_condition x.meta c.condition_type owner ≡ p
  unfolding get_condition
  get_condition-found owner p h = ground arith

  entered :
      (previous cond : Condition)
      → is_converging previous.reason ≡ false
      → IsUpdated previous cond (record cond { last_transition_time = x.now })
  entered previous cond h = record {
    concluded = (refl, refl, refl);
    stamped = λ e. refl;
    kept = λ e k. ground arith;
  }

  carried :
      (previous cond : Condition)
      → is_converging previous.reason ≡ true
      → IsUpdated previous cond (stored (some previous) cond x.wall)
  carried previous cond h = record {
    concluded = (ground arith, ground arith, ground arith);
    stamped = λ e. ground arith;
    kept = λ e k. ground arith;
  }

  store_after :
      (previous cond : Condition) (s : State W) (b : Bool)
      → is_converging previous.reason ≡ b
      → x.meta.find_status_condition s.owner.conditions c.condition_type ≡ some previous
      → cond.condition_type ≡ c.condition_type
      → (after : Condition) × IsUpdated previous cond after
        × (x.meta.find_status_condition
              (store_converged x c previous cond s).1.owner.conditions
              c.condition_type
            ≡ some after)
  unfolding store_converged apply_status_condition change_conditions
  store_after previous cond s true e h k = (
    stored (some previous) cond x.wall,
    carried previous cond e,
    ground (
      arith,
      x.meta.find-set s.owner.conditions cond x.wall c.condition_type,
      eq_iff cond.condition_type c.condition_type,
    ),
  )
  store_after previous cond s false e h k = (
    record cond { last_transition_time = x.now },
    entered previous cond e,
    ground (
      arith,
      find-replace_status_condition x.meta s.owner.conditions
          (record cond { last_transition_time = x.now }) c.condition_type,
      eq_iff cond.condition_type c.condition_type,
    ),
  )

  -- After the resources of a component are reconciled, its condition on the owner has the status,
  -- the reason and the message that the state machine concludes from the results. If the condition
  -- before was not a converging one, its transition time is the time of this reconciliation, even
  -- where the status is the same; if it was and the status is the same, the transition time stays,
  -- so that the grace period is not started anew.
  pub record_convergence-IsUpdated :
      (results : List (ReconcileResult W)) (s : State W) (previous : Condition)
      → x.meta.find_status_condition s.owner.conditions c.condition_type ≡ some previous
      → (after : Condition) × IsUpdated previous (converged_condition x c results s) after
        × (x.meta.find_status_condition
              (record_convergence x c results s).1.owner.conditions
              c.condition_type
            ≡ some after)
  unfolding record_convergence ◌>>=◌ gets
  record_convergence-IsUpdated results s previous h =
      let cond = converged_condition x c results s in
      subst
        (λ (p : Condition).
          (after : Condition) × IsUpdated previous cond after
          × (x.meta.find_status_condition (store_converged x c p cond s).1.owner.conditions
                c.condition_type
              ≡ some after))
        (sym (get_condition-found s.owner previous h))
        (store_after previous cond s (is_converging previous.reason) refl h
          (converged_condition-type x c results s))
