-- ===== src/Grace/Requeue.antt =====
-- The delay that `graceRemaining` returns is late enough and not later than needed.
use operator_component_frame.Prelude.{
  ℕ, ◌+◌, ◌≤◌, ◌<◌, ◌≡◌, ◌≢◌, ◌⊎◌, true, false, none, some, arith,
}
use operator_component_frame.Status.{is_grace_timed, is_degraded, is_down}
use operator_component_frame.Condition.{Condition}
use operator_component_frame.Grace.{second, next_second, grace_expired, grace_remaining}

-- a time is before the first whole second after it, by at most a second
next_second_bounds : (t : ℕ) → (t < next_second t) × (next_second t ≤ t + second)
next_second_bounds t = (omega arith, omega arith)

-- Whenever a delay is returned, a reconcile at its end finds the grace period expired, also when
-- it reads a transition time that is earlier than the one that the delay was computed from; and
-- the delay exceeds the rest of the grace period by a second at most, or is a second.
pub grace_remaining-grace_expired :
    (cond : Condition) (grace_period converged_at now r transition : ℕ)
    → grace_remaining cond grace_period converged_at now ≡ some r
    → transition ≤ cond.last_transition_time
    → (0 < r)
      × (grace_expired grace_period transition (now + r) ≡ true)
      × ((now + r ≤ cond.last_transition_time + grace_period + second) ⊎ (r ≡ second))
unfolding grace_remaining
grace_remaining-grace_expired cond grace_period converged_at now r transition e h =
    ground (arith, next_second_bounds (cond.last_transition_time + grace_period))

-- While a grace period is pending there is a delay: for a condition whose reason the grace period
-- runs for and that is not graded yet, and a grace period that had not expired when the last
-- reconcile checked it.
pub grace_remaining_pending :
    (cond : Condition) (grace_period converged_at now : ℕ)
    → is_grace_timed cond.reason ≡ true
    → is_degraded cond.reason ≡ false
    → is_down cond.reason ≡ false
    → grace_period ≢ 0
    → converged_at ≢ 0
    → grace_expired grace_period cond.last_transition_time converged_at ≡ false
    → grace_remaining cond grace_period converged_at now ≢ none
unfolding grace_remaining
grace_remaining_pending cond grace_period converged_at now timed not_degraded not_down gp ca h =
    ground arith

-- Once a reconcile has checked an expired grace period there is no further delay, whatever the
-- condition says.
pub grace_remaining_settled :
    (cond : Condition) (grace_period converged_at now : ℕ)
    → converged_at ≢ 0
    → grace_expired grace_period cond.last_transition_time converged_at ≡ true
    → grace_remaining cond grace_period converged_at now ≡ none
unfolding grace_remaining
grace_remaining_settled cond grace_period converged_at now ca h = ground arith
