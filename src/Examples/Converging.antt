-- ===== src/Examples/Converging.antt =====
-- The theorems on conditions, summaries and the state machine, applied.
use operator_component_frame.Prelude.{
  ℕ, ◌+◌, ◌≤◌, ◌<◌, ◌≡◌, refl, ◌≢◌, ◌⊎◌, true, false, none, some, List, [], ◌∷◌, All, Any, any, ok,
  arith, is_some, not, ◌||◌, if◌then◌else◌,
}
use operator_component_frame.Status.{
  Status, is_healthy, converging_priority, is_down, is_grace_timed,
}
use operator_component_frame.Condition.{Condition, ConditionStatus, status_of}
use operator_component_frame.Condition.Meta.{list_meta}
use operator_component_frame.Aggregate.{Member, get_condition, aggregate, aggregate_message}
use operator_component_frame.Aggregate.Verdict.{IsGoverning, aggregate-IsGoverning}
use operator_component_frame.Resource.{ReconcileResult}
use operator_component_frame.Converge.{
  results_healthy, converge_summary, evaluate_grace, grace_summary, grade,
}
use operator_component_frame.Converge.Summary.{converge_summary_top}
use operator_component_frame.Converge.Healthy.{converge_summary_healthy}
use operator_component_frame.Converge.Grading.{
  graded_as, is_failing, grace_summary_lem, grace_summary-evaluate_grace_blocked,
}
use operator_component_frame.Grace.{second, grace_expired, grace_remaining}
use operator_component_frame.Grace.Requeue.{grace_remaining-grace_expired, grace_remaining_pending}
use operator_component_frame.Machine.{new_converging_status_condition}
use operator_component_frame.Machine.Phases.{
  IsDownOrFailed, new_converging_status_condition_blocked,
}
use operator_component_frame.Machine.Invariant.{
  IsConsistent, is_expected, new_converging_status_condition-IsConsistent,
  new_converging_status_condition_unrecognized,
}
use operator_component_frame.Examples.Samples.{World, result_of, condition_of, shop, web, db, mixed}

converge_summary_top_example :
    All
      (λ r.
        converging_priority r.status.status ≤ converging_priority (converge_summary mixed).status)
      mixed
    × (Any (λ r. r.status.status ≡ (converge_summary mixed).status) mixed
        ⊎ (All (λ r. converging_priority r.status.status ≡ 0) mixed
            × ((converge_summary mixed).status ≡ Status.healthy)))
converge_summary_top_example = converge_summary_top mixed

converge_summary_healthy_example :
    is_healthy (converge_summary mixed).status ≡ results_healthy mixed
unfolding converging_priority
converge_summary_healthy_example = converge_summary_healthy mixed (omega arith)

abbrev creating_at : ℕ → Condition
creating_at at = condition_of "DbReady" ConditionStatus.is_false Status.creating at

grace_remaining-grace_expired_example :
    (0 < 999_999_850)
    × (grace_expired 60 90 (150 + 999_999_850) ≡ true)
    × ((150 + 999_999_850 ≤ 100 + 60 + second) ⊎ (◌≡◌ {A = ℕ} 999_999_850 second))
unfolding grace_remaining is_grace_timed
grace_remaining-grace_expired_example =
    grace_remaining-grace_expired (creating_at 100) 60 120 150 999_999_850 90 refl (omega arith)

grace_remaining_pending_example : grace_remaining (creating_at 100) 60 120 150 ≢ none
unfolding grace_expired is_grace_timed
grace_remaining_pending_example =
    grace_remaining_pending (creating_at 100) 60 120 150 refl refl refl (omega arith) (omega arith)
      refl

grace_summary_example : (grace_summary mixed).status ≡ (
    if not (any (λ r. is_some r.grace_status) mixed)
      || any (λ r. graded_as is_down r.grace_status) mixed
    then Status.down
    else (if any (λ r. graded_as is_failing r.grace_status) mixed
        then Status.degraded
        else Status.healthy))
grace_summary_example = grace_summary_lem mixed

abbrev mixed_graded : List (ReconcileResult World)
mixed_graded =
    result_of "cm" Status.creating "waiting for cm"
    ∷ record (result_of "dep" Status.guard_blocked "waiting for password") {
      grace_status = some (record { status = Status.down; reason = "waiting for password" });
    }
    ∷ []

mixed-evaluate_grace : evaluate_grace tt mixed ≡ ok mixed_graded
unfolding evaluate_grace grade
mixed-evaluate_grace = refl

evaluate_grace_blocked_example : (grace_summary mixed_graded).status ≡ Status.down
evaluate_grace_blocked_example =
    grace_summary-evaluate_grace_blocked tt mixed mixed_graded mixed-evaluate_grace refl

mixed_unhealthy : results_healthy mixed ≡ false
unfolding results_healthy
mixed_unhealthy = refl

abbrev next_at : ℕ → Condition → Condition
next_at now previous = new_converging_status_condition tt shop mixed 60 previous now

blocked_example : IsDownOrFailed (evaluate_grace tt mixed) (next_at 170 (creating_at 100))
unfolding grace_expired is_grace_timed
blocked_example =
    new_converging_status_condition_blocked tt shop mixed 60 (creating_at 100) 170 mixed_unhealthy
      refl refl refl

new_converging_status_condition-IsConsistent_example :
    ((next_at 170 (creating_at 100)).status ≡ status_of (results_healthy mixed))
    × IsConsistent (next_at 170 (creating_at 100))
unfolding converging_priority is_expected
new_converging_status_condition-IsConsistent_example =
    new_converging_status_condition-IsConsistent tt shop mixed 60 (creating_at 100) 170
      (omega arith) refl

abbrev odd : List (ReconcileResult World)
odd = result_of "cr" (Status.other "Warming") "warming up" ∷ []

unrecognized_example :
    ((new_converging_status_condition tt shop odd 60
        (condition_of "DbReady" ConditionStatus.is_false Status.unknown 0)
        170).status
      ≡ ConditionStatus.is_true)
    × ((new_converging_status_condition tt shop odd 60
          (condition_of "DbReady" ConditionStatus.is_false Status.unknown 0)
          170).reason
        ≡ Status.healthy)
unfolding converging_priority results_healthy is_grace_timed
unrecognized_example =
    new_converging_status_condition_unrecognized tt shop odd 60
      (condition_of "DbReady" ConditionStatus.is_false Status.unknown 0) 170 (omega arith) refl refl

aggregate-IsGoverning_example :
    (g : Member) × IsGoverning list_meta shop (web ∷ db ∷ []) g
    × ((aggregate list_meta "Ready" shop (web ∷ db ∷ [])).reason
        ≡ (get_condition list_meta g.condition_type shop).reason)
    × ((aggregate list_meta "Ready" shop (web ∷ db ∷ [])).message
        ≡ aggregate_message g.name (get_condition list_meta g.condition_type shop).message)
aggregate-IsGoverning_example = aggregate-IsGoverning list_meta shop "Ready" web (db ∷ [])
