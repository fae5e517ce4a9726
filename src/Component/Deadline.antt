-- ===== src/Component/Deadline.antt =====
-- The grace period of a component over a sequence of reconciliations.
use operator_component_frame.Prelude.{
  ℕ, ◌≡◌, refl, sym, ◌∙◌, true, false, some, List, [], ◌∷◌, All, arith,
}
use mathlib.Core.Path.{subst}
use operator_component_frame.Status.{Status, is_converging, is_sticky}
use operator_component_frame.Condition.{Condition, ConditionStatus}
use operator_component_frame.Condition.Meta.{same_status}
use operator_component_frame.Resource.{ReconcileResult}
use operator_component_frame.Converge.{results_healthy, filter_participators}
use operator_component_frame.Grace.{grace_expired}
use operator_component_frame.Machine.{new_converging_status_condition}
use operator_component_frame.Machine.Phases.{new_converging_status_condition_sticky}
use operator_component_frame.Cluster.{State}
use operator_component_frame.Component.{Component}
use operator_component_frame.Component.Phases.{Context, record_convergence, converged_condition}
use operator_component_frame.Component.Transition.{
  IsUpdated, get_condition-found, record_convergence-IsUpdated,
}

-- What a reconciliation finds: the world, the generation of the owner, its clocks, and the results
-- of the resources.
pub record Reconciliation (W : Type 0) : Type 0 where
  pub env : W
  pub generation : ℕ
  pub now : ℕ
  pub wall : ℕ
  pub results : List (ReconcileResult W)

-- One condition stands where the other stood.
pub record IsHeld (previous after : Condition) : Type 0 where
  pub same_reason : after.reason ≡ previous.reason
  pub same_status : after.status ≡ previous.status
  pub same_time : after.last_transition_time ≡ previous.last_transition_time

sticky_converging : (s : Status) → is_sticky s ≡ true → is_converging s ≡ true
unfolding is_sticky is_converging
sticky_converging s h = ground arith

same_status_refl : (s : ConditionStatus) → same_status s s ≡ true
same_status_refl ConditionStatus.is_true = refl
same_status_refl ConditionStatus.is_false = refl
same_status_refl ConditionStatus.is_unknown = refl

IsHeld-trans : (a b c : Condition) → IsHeld a b → IsHeld b c → IsHeld a c
IsHeld-trans a b c h k = record {
  same_reason = k.same_reason ∙ h.same_reason;
  same_status = k.same_status ∙ h.same_status;
  same_time = k.same_time ∙ h.same_time;
}

module _ {W : Type 0} (x : Context W) (c : Component W) where
  abbrev entering : Reconciliation W → State W → State W
  entering r s = record s { env = r.env; owner = record s.owner { generation = r.generation } }

  -- what a sequence of reconciliations makes of the owner's condition, one after the other
  unfoldable pub record_rounds : List (Reconciliation W) → State W → State W
  record_rounds [] s = s
  record_rounds (r ∷ rounds) s =
      record_rounds rounds
        (record_convergence (record x { now = r.now; wall = r.wall }) c r.results (entering r s)).1

  abbrev StandsAs : State W → Condition → Type 0
  StandsAs s cond = x.meta.find_status_condition s.owner.conditions c.condition_type ≡ some cond

  -- not all results are healthy, and the grace period that began at the time has not expired
  abbrev pub IsWaiting : ℕ → Reconciliation W → Type 0
  IsWaiting since r =
      (results_healthy (filter_participators r.results) ≡ false)
      × (grace_expired c.grace_period since r.now ≡ false)

  one_kept :
      (r : Reconciliation W) (s : State W) (previous : Condition)
      → StandsAs s previous
      → is_sticky previous.reason ≡ true
      → IsWaiting previous.last_transition_time r
      → (after : Condition) × IsHeld previous after × StandsAs (record_rounds (r ∷ []) s) after
  unfolding record_rounds converged_condition
  one_kept r s previous h t k =
      let y : Context W = record x { now = r.now; wall = r.wall } in
      let cond =
        new_converging_status_condition r.env (entering r s).owner (filter_participators r.results)
          c.grace_period previous r.now in
      let (after, u, found) =
        record_convergence-IsUpdated y c r.results (entering r s) previous h in
      let u' : IsUpdated y c previous cond after =
        subst
          (λ (p : Condition).
            IsUpdated y c previous
              (new_converging_status_condition r.env (entering r s).owner
                (filter_participators r.results) c.grace_period p r.now)
              after)
          (get_condition-found y c (entering r s).owner previous h) u in
      let (reason, status, time, message) =
        new_converging_status_condition_sticky r.env (entering r s).owner
          (filter_participators r.results) c.grace_period previous r.now k.0 t k.1 in
      (
        after,
        record {
          same_reason = u'.concluded.1 ∙ reason;
          same_status = u'.concluded.0 ∙ status;
          same_time =
              u'.kept (sticky_converging previous.reason t)
                (rw status (same_status_refl previous.status));
        },
        found,
      )

  rounds_kept :
      (rounds : List (Reconciliation W)) (s : State W) (since : ℕ) (previous : Condition)
      → StandsAs s previous
      → is_sticky previous.reason ≡ true
      → previous.last_transition_time ≡ since
      → All (IsWaiting since) rounds
      → (after : Condition) × IsHeld previous after × StandsAs (record_rounds rounds s) after
  unfolding record_rounds
  rounds_kept [] s since previous h t e w =
      (previous, record { same_reason = refl; same_status = refl; same_time = refl }, h)
  rounds_kept (r ∷ rounds) s since previous h t e w =
      let (mid, k, found) =
        one_kept r s previous h t (subst (λ (n : ℕ). IsWaiting n r) (sym e) w.0) in
      let (after, l, stands) =
        rounds_kept rounds (record_rounds (r ∷ []) s) since mid found (rw k.same_reason t)
          (k.same_time ∙ e) w.1 in
      (after, IsHeld-trans previous mid after k l, stands)

  -- While reconciliations of an owner whose condition is Creating, Updating or Scaling go on finding
  -- unhealthy results, within the grace period since the transition time of that condition, storing
  -- what they conclude keeps the condition's reason, its status and its transition time, however many
  -- reconciliations there are and whatever their results report: the deadline does not move. Each
  -- starts from the conditions that the one before has left, in any world, with any generation of
  -- the owner and any clocks.
  pub record_rounds-IsHeld :
      (rounds : List (Reconciliation W)) (s : State W) (previous : Condition)
      → x.meta.find_status_condition s.owner.conditions c.condition_type ≡ some previous
      → is_sticky previous.reason ≡ true
      → All (IsWaiting previous.last_transition_time) rounds
      → (after : Condition) × IsHeld previous after
        × (x.meta.find_status_condition (record_rounds rounds s).owner.conditions c.condition_type
            ≡ some after)
  record_rounds-IsHeld rounds s previous h t w =
      rounds_kept rounds s previous.last_transition_time previous h t refl w
