-- ===== src/Machine/Invariant.antt =====
-- What the state machine keeps: a condition's status and its reason tell the same.
use operator_component_frame.Prelude.{
  All, [], ◌∷◌, ℕ, ◌≡◌, refl, sym, ap, ◌∙◌, inl, inr, Bool, true, false, ◌||◌, List, arith, Result,
  ok, err, Bool-cases, String, Error, if◌then◌else◌,
}
use operator_component_frame.Status.{
  Status, StatusWithReason, is_healthy, is_grace_timed, is_sticky, is_suspended,
  converging_priority,
}
use operator_component_frame.Resource.{ReconcileResult}
use operator_component_frame.Condition.{
  Condition, ConditionStatus, Owner, status_of, converging_condition, grace_condition,
  condition_ready, condition_error,
}
use operator_component_frame.Converge.{
  results_healthy, converge_summary, evaluate_grace, grace_summary, max_status,
}
use operator_component_frame.Status.Orders.{IsRecognized}
use operator_component_frame.Converge.Summary.{AllRecognized}
use operator_component_frame.Converge.Healthy.{
  converge_summary_healthy, converge_summary-IsRecognized,
}
use operator_component_frame.Grace.{grace_expired}
use operator_component_frame.Machine.Phases.{
  held, phase_ready, phase_fresh, phase_held, phase_expired,
}
use operator_component_frame.Machine.{
  is_grace_failure, carried_condition, expired_condition, new_converging_status_condition,
}

abbrev is_disabled : Status → Bool
is_disabled Status.disabled = true
is_disabled _ = false

-- the reasons that say that a component is in its expected state
unfoldable pub is_expected : Status → Bool
unfolding is_healthy
is_expected s = is_healthy s || is_disabled s || is_suspended s

-- The condition is True exactly when its reason says that the component is as expected.
abbrev pub IsConsistent : Condition → Type 0
IsConsistent c = c.status ≡ status_of (is_expected c.reason)

grace_timed_unexpected : (s : Status) → is_grace_timed s ≡ true → is_expected s ≡ false
unfolding is_grace_timed is_expected
grace_timed_unexpected s h = ground arith

sticky_unhealthy : (s : Status) → is_sticky s ≡ true → is_expected s ≡ false
unfolding is_sticky is_expected
sticky_unhealthy s h = ground arith

failure_unexpected : (s : Status) → is_grace_failure s ≡ true → is_expected s ≡ false
unfolding is_expected
failure_unexpected s h = ground arith

recognized_expected : (s : Status) → IsRecognized s → is_expected s ≡ is_healthy s
unfolding is_expected converging_priority
recognized_expected s h = ground arith

abbrev IsNotReady : Condition → Type 0
IsNotReady c = (c.status ≡ ConditionStatus.is_false) × (is_expected c.reason ≡ false)

error-IsNotReady : (t : String) (e : Error) (n : ℕ) → IsNotReady (condition_error t e n)
unfolding condition_error is_expected
error-IsNotReady t e n = (refl, refl)

carried-IsNotReady :
    (previous : Condition) (s : Status) (summary : StatusWithReason) (n : ℕ)
    → previous.status ≡ ConditionStatus.is_false
    → is_expected s ≡ false
    → IsNotReady (carried_condition previous s summary n)
unfolding carried_condition
carried-IsNotReady previous s summary n h k = (h, k)

held_unexpected :
    (previous s : Status)
    → is_expected s ≡ false
    → is_expected (if is_sticky previous then previous else s) ≡ false
held_unexpected previous s h = elim (Bool-cases (is_sticky previous)) [
  | inl e ↦ rw e (sticky_unhealthy previous e)
  | inr e ↦ rw e h
]

abbrev IsGood : Condition → Bool → Type 0
IsGood c ready = (c.status ≡ status_of ready) × IsConsistent c

IsNotReady-IsGood : (c : Condition) → IsNotReady c → IsGood c false
IsNotReady-IsGood c h = (h.0, h.0 ∙ ap status_of (sym h.1))

ready-IsGood : (t : String) (n : ℕ) → IsGood (condition_ready t n) true
unfolding condition_ready is_expected
ready-IsGood t n = (refl, refl)

module _ {W : Type 0} where
  expired-IsNotReady :
      (owner : Owner) (previous carried : Condition) (graded : Result (List (ReconcileResult W)))
      → IsNotReady carried
      → IsNotReady (expired_condition owner previous carried graded)
  unfolding expired_condition
  expired-IsNotReady owner previous carried (err e) h = error-IsNotReady _ e _
  expired-IsNotReady owner previous carried (ok graded) h =
      elim (Bool-cases (is_grace_failure (grace_summary graded).status)) [
        | inl e ↦ rw e (unfold grace_condition in (refl, failure_unexpected _ e))
        | inr e ↦ rw e h
      ]

  summary_unexpected :
      (rs : List (ReconcileResult W))
      → AllRecognized rs
      → results_healthy rs ≡ false
      → is_expected (converge_summary rs).status ≡ false
  summary_unexpected rs k h =
      recognized_expected _ (converge_summary-IsRecognized rs k) ∙ converge_summary_healthy rs k ∙ h

  fresh-IsNotReady :
      (t : String) (n : ℕ) (rs : List (ReconcileResult W))
      → AllRecognized rs
      → results_healthy rs ≡ false
      → IsNotReady (converging_condition t (converge_summary rs) n)
  unfolding converging_condition
  fresh-IsNotReady t n rs k h =
      (rw (converge_summary_healthy rs k, h) refl, summary_unexpected rs k h)

  machine-IsNotReady :
      (w : W) (owner : Owner) (rs : List (ReconcileResult W)) (grace_period : ℕ)
      (previous : Condition) (now : ℕ)
      → AllRecognized rs
      → IsConsistent previous
      → results_healthy rs ≡ false
      → IsNotReady (new_converging_status_condition w owner rs grace_period previous now)
  machine-IsNotReady w owner rs grace_period previous now k h e =
      elim (Bool-cases (is_grace_timed previous.reason)) [
        | inr t ↦
            rw (phase_fresh w owner rs grace_period previous now e t) (fresh-IsNotReady _ _ rs k e)
        | inl t ↦
            let old = h ∙ ap status_of (grace_timed_unexpected previous.reason t) in
            let carried : IsNotReady (held w owner rs grace_period previous now) =
              carried-IsNotReady previous _ (converge_summary rs) owner.generation old
                (held_unexpected previous.reason _ (summary_unexpected rs k e)) in
            (elim (Bool-cases (grace_expired grace_period previous.last_transition_time now)) [
              | inl x ↦
                  rw (phase_expired w owner rs grace_period previous now e t x)
                    (expired-IsNotReady owner previous _ (evaluate_grace w rs) carried)
              | inr x ↦ rw (phase_held w owner rs grace_period previous now e t x) carried
            ])
      ]

  -- The condition that the state machine returns is True exactly when all results are healthy, and
  -- its reason says the same, if the previous one was consistent in this way and every result has a
  -- recognized status.
  pub new_converging_status_condition-IsConsistent :
      (w : W) (owner : Owner) (rs : List (ReconcileResult W)) (grace_period : ℕ)
      (previous : Condition) (now : ℕ)
      → AllRecognized rs
      → IsConsistent previous
      → let c = new_converging_status_condition w owner rs grace_period previous now in
        (c.status ≡ status_of (results_healthy rs)) × IsConsistent c
  new_converging_status_condition-IsConsistent w owner rs grace_period previous now k h =
      elim (Bool-cases (results_healthy rs)) [
        | inl e ↦ rw (phase_ready w owner rs grace_period previous now e, e) (ready-IsGood _ _)
        | inr e ↦ rw e (
            IsNotReady-IsGood (new_converging_status_condition w owner rs grace_period previous now)
              (machine-IsNotReady w owner rs grace_period previous now k h e))
      ]

  unrecognized_healthy :
      (rs : List (ReconcileResult W))
      → All (λ r. converging_priority r.status.status ≡ 0) rs
      → max_status rs Status.blank ≡ Status.blank
  unfolding max_status converging_priority
  unrecognized_healthy [] h = refl
  unrecognized_healthy (r ∷ rs) h = ground (arith, h.0, unrecognized_healthy rs h.1)

  -- A component whose results are not all healthy is reported True with reason Healthy when none of
  -- its resources reports a status that the package knows and the grace period does not run for the
  -- previous condition.
  pub new_converging_status_condition_unrecognized :
      (w : W) (owner : Owner) (rs : List (ReconcileResult W)) (grace_period : ℕ)
      (previous : Condition) (now : ℕ)
      → All (λ r. converging_priority r.status.status ≡ 0) rs
      → results_healthy rs ≡ false
      → is_grace_timed previous.reason ≡ false
      → let c = new_converging_status_condition w owner rs grace_period previous now in
        (c.status ≡ ConditionStatus.is_true) × (c.reason ≡ Status.healthy)
  unfolding converge_summary converging_condition is_healthy
  new_converging_status_condition_unrecognized w owner rs grace_period previous now h e t =
      rw (phase_fresh w owner rs grace_period previous now e t, unrecognized_healthy rs h)
        (refl, refl)
