-- ===== src/Machine/Phases.antt =====
-- The phases of the state machine, as equations, and what they mean for a component that stays
-- unready: its reason is held until the grace period ends, and graded after it.
use operator_component_frame.Prelude.{
  inl, inr, ℕ, ◌≡◌, refl, inl, inr, true, false, List, Result, ok, err, Error, any, if◌then◌else◌,
  ◌⊎◌,
}
use operator_component_frame.Status.{Status, is_grace_timed, is_sticky, is_guard_blocked}
use operator_component_frame.Status.Orders.{is_sticky-is_grace_timed}
use operator_component_frame.Resource.{ReconcileResult}
use operator_component_frame.Condition.{
  Condition, ConditionStatus, Owner, converging_condition, grace_condition, condition_ready,
  condition_error,
}
use operator_component_frame.Converge.{
  results_healthy, converge_summary, evaluate_grace, grace_summary,
}
use operator_component_frame.Converge.Grading.{grace_summary-evaluate_grace_blocked}
use operator_component_frame.Grace.{grace_expired}
use operator_component_frame.Machine.{
  carried_condition, expired_condition, new_converging_status_condition,
}

-- A condition that is not ready: Down where the grading succeeded, Error where it failed.
abbrev pub IsDownOrFailed : {W : Type 0} → Result (List (ReconcileResult W)) → Condition → Type 0
IsDownOrFailed {W} graded c =
    (c.status ≡ ConditionStatus.is_false)
    × (((c.reason ≡ Status.down) × ((gs : List (ReconcileResult W)) × (graded ≡ ok gs)))
        ⊎ ((c.reason ≡ Status.error) × ((e : Error) × (graded ≡ err e) × (c.message ≡ e.message))))

expired_down :
    {W : Type 0} (owner : Owner) (previous carried : Condition)
    (graded : Result (List (ReconcileResult W)))
    → ((gs : List (ReconcileResult W)) → graded ≡ ok gs → (grace_summary gs).status ≡ Status.down)
    → IsDownOrFailed graded (expired_condition owner previous carried graded)
unfolding expired_condition condition_error grace_condition
expired_down owner previous carried (err e) h = (refl, inr (refl, (e, refl, refl)))
expired_down owner previous carried (ok gs) h = rw (h gs refl) (refl, inl (refl, (gs, refl)))

module _ {W : Type 0} (w : W) (owner : Owner) (rs : List (ReconcileResult W)) (grace_period : ℕ)
    (previous : Condition) (now : ℕ) where
  abbrev next : Condition
  next = new_converging_status_condition w owner rs grace_period previous now

  -- the reason that an unready component keeps or gets
  abbrev pub held_reason : Status
  held_reason = if is_sticky previous.reason then previous.reason else (converge_summary rs).status

  abbrev pub held : Condition
  held = carried_condition previous held_reason (converge_summary rs) owner.generation

  pub phase_ready :
      results_healthy rs ≡ true → next ≡ condition_ready previous.condition_type owner.generation
  unfolding new_converging_status_condition
  phase_ready h = rw h

  pub phase_fresh :
      results_healthy rs ≡ false
      → is_grace_timed previous.reason ≡ false
      → next ≡ converging_condition previous.condition_type (converge_summary rs) owner.generation
  unfolding new_converging_status_condition
  phase_fresh h t = rw (h, t)

  pub phase_held :
      results_healthy rs ≡ false
      → is_grace_timed previous.reason ≡ true
      → grace_expired grace_period previous.last_transition_time now ≡ false
      → next ≡ held
  unfolding new_converging_status_condition
  phase_held h t x = rw (h, t, x)

  pub phase_expired :
      results_healthy rs ≡ false
      → is_grace_timed previous.reason ≡ true
      → grace_expired grace_period previous.last_transition_time now ≡ true
      → next ≡ expired_condition owner previous held (evaluate_grace w rs)
  unfolding new_converging_status_condition
  phase_expired h t x = rw (h, t, x)

  -- the held phase for a sticky reason, one reconciliation of what `Component.Deadline` repeats
  pub new_converging_status_condition_sticky :
      results_healthy rs ≡ false
      → is_sticky previous.reason ≡ true
      → grace_expired grace_period previous.last_transition_time now ≡ false
      → (next.reason ≡ previous.reason)
        × (next.status ≡ previous.status)
        × (next.last_transition_time ≡ previous.last_transition_time)
        × (next.message ≡ (converge_summary rs).reason)
  unfolding carried_condition
  new_converging_status_condition_sticky h s x =
      rw (phase_held h (is_sticky-is_grace_timed previous.reason s) x, s) (refl, refl, refl, refl)

  -- Once the grace period has expired, an unready component with a blocked result is not ready: its
  -- reason is Down, where the grading of its results succeeds, and Error, with the message of the
  -- failure, where a grace handler fails.
  pub new_converging_status_condition_blocked :
      results_healthy rs ≡ false
      → is_grace_timed previous.reason ≡ true
      → grace_expired grace_period previous.last_transition_time now ≡ true
      → any (λ r. is_guard_blocked r.status.status) rs ≡ true
      → IsDownOrFailed (evaluate_grace w rs) next
  new_converging_status_condition_blocked h t x b = rw (phase_expired h t x) (
      expired_down owner previous held (evaluate_grace w rs)
        (λ gs e. grace_summary-evaluate_grace_blocked w rs gs e b))
