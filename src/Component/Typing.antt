-- ===== src/Component/Typing.antt =====
-- The type of the conditions that a reconciliation finds and makes.
use operator_component_frame.Prelude.{
  ℕ, String, ◌≡◌, refl, sym, ◌∙◌, Option, none, some, List, [], ◌∷◌, arith, eq_iff,
}
use operator_component_frame.Condition.{
  Condition, Owner, condition_error, condition_ready, converging_condition, grace_condition,
  condition_unknown,
}
use operator_component_frame.Condition.Meta.{MetaApi}
use operator_component_frame.Aggregate.{get_condition}
use operator_component_frame.Machine.{
  new_converging_status_condition, expired_condition, carried_condition,
}
use operator_component_frame.Resource.{ReconcileResult}
use operator_component_frame.Cluster.{State}
use operator_component_frame.Component.{Component}
use operator_component_frame.Component.Phases.{Context, converged_condition}

none_not_some : {A : Type 0} {a : A} → none ≡ some a → ⊥
none_not_some h = ground arith

module _ (meta : MetaApi) where
  find-type :
      (cs : List Condition) (t : String) (cond : Condition)
      → meta.find_status_condition cs t ≡ some cond
      → cond.condition_type ≡ t
  find-type [] t cond h = elim (none_not_some (sym (meta.find-nil t) ∙ h)) [ ]
  find-type (d ∷ cs) t cond h =
      ground (arith, meta.find-cons d cs t, find-type cs t cond, eq_iff d.condition_type t)

  found-type :
      (t : String) (owner : Owner) (o : Option Condition)
      → ((cond : Condition) → o ≡ some cond → cond.condition_type ≡ t)
      → (let r : Condition = elim o [
        | none ↦ condition_unknown t owner.generation
        | some cond ↦ cond
      ] in
          r.condition_type ≡ t)
  unfolding condition_unknown
  found-type t owner none h = refl
  found-type t owner (some cond) h = h cond refl

  pub get_condition-type :
      (t : String) (owner : Owner) → (get_condition meta t owner).condition_type ≡ t
  unfolding get_condition
  get_condition-type t owner =
      found-type t owner (meta.find_status_condition owner.conditions t)
        (find-type owner.conditions t)

converged-type :
    {W : Type 0} (w : W) (owner : Owner) (rs : List (ReconcileResult W)) (grace_period : ℕ)
    (previous : Condition) (now : ℕ)
    → (new_converging_status_condition w owner rs grace_period previous now).condition_type
      ≡ previous.condition_type
unfolding new_converging_status_condition condition_ready converging_condition expired_condition
    grace_condition condition_error carried_condition
converged-type w owner rs grace_period previous now = ground arith

module _ {W : Type 0} (x : Context W) (c : Component W) where
  pub converged_condition-type :
      (results : List (ReconcileResult W)) (s : State W)
      → (converged_condition x c results s).condition_type ≡ c.condition_type
  unfolding converged_condition
  converged_condition-type results s =
      converged-type s.env s.owner _ c.grace_period _ x.now
      ∙ get_condition-type x.meta c.condition_type s.owner
