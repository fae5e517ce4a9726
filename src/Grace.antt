-- ===== src/Grace.antt =====
-- pkg/component/converge.go: the grace period of a condition, and when to look at it again.
--
-- Times and durations are numbers of nanoseconds. A component's grace period is not negative, as
-- its builder checks; Go's saturation at 292 years is left out.
pub mod Requeue
use operator_component_frame.Prelude.{
  ℕ, ◌+◌, ◌-◌, ◌%◌, Bool, false, not, ◌&&◌, ◌||◌, Option, none, some, ltb, ◌==◌, if◌then◌else◌,
}
use operator_component_frame.Status.{is_grace_timed, is_degraded, is_down}
use operator_component_frame.Condition.{Condition}

abbrev pub second : ℕ
second = 1_000_000_000

-- `overdueGraceRequeue`
abbrev pub overdue_grace_requeue : ℕ
overdue_grace_requeue = second

-- `graceDeadline`
unfoldable pub grace_deadline : ℕ → ℕ → Option ℕ
grace_deadline grace_period transition =
    if grace_period == 0 then none else some (transition + grace_period)

-- `graceExpired`
unfoldable pub grace_expired : ℕ → ℕ → ℕ → Bool
unfolding grace_deadline
grace_expired grace_period transition now = elim (grace_deadline grace_period transition) [
  | none ↦ false
  | some deadline ↦ ltb deadline now
]

-- the first whole second after a time
abbrev pub next_second : ℕ → ℕ
next_second t = (t - t % second) + second

-- the `switch` of `graceRemaining`
unfoldable pub remaining_until : ℕ → ℕ → ℕ → Option ℕ
remaining_until requeue_at converged_at now =
    if ltb now requeue_at
    then some (requeue_at - now)
    else (if converged_at == 0 then none else some overdue_grace_requeue)

-- `graceRemaining`
unfoldable pub grace_remaining : Condition → ℕ → ℕ → ℕ → Option ℕ
unfolding grace_deadline grace_expired remaining_until
grace_remaining cond grace_period converged_at now =
    if not (is_grace_timed cond.reason) || is_degraded cond.reason || is_down cond.reason
    then none
    else (elim (grace_deadline grace_period cond.last_transition_time) [
      | none ↦ none
      | some deadline ↦
          if not (converged_at == 0)
            && grace_expired grace_period cond.last_transition_time converged_at
          then none
          else remaining_until (next_second deadline) converged_at now
    ])
