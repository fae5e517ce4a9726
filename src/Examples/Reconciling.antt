-- ===== src/Examples/Reconciling.antt =====
-- The theorems on the reconciliation of a component, applied.
use operator_component_frame.Prelude.{
  All, Any, List, ℕ, ◌⊎◌, none, ◌∷◌, [], ◌≡◌, refl, some, Error, new_error, err,
}
use operator_component_frame.Status.{Status, is_sticky}
use operator_component_frame.Condition.{Condition, ConditionStatus}
use operator_component_frame.Condition.Meta.{list_meta, find_first}
use operator_component_frame.Cluster.Monad.{◌>>=◌, pure, fail_with, gets, change_conditions}
use operator_component_frame.Component.{Component}
use operator_component_frame.Component.Phases.{
  clear_cells, check_mapper, check_gate, after_gate, fail_reporting, report, apply_status_condition,
  prologue, after_prologue, reconcile, record_convergence, converged_condition,
}
use operator_component_frame.Component.Reporting.{IsReported}
use operator_component_frame.Component.Reported.{reconcile-IsReported}
use operator_component_frame.Component.Frame.{IsFramed}
use operator_component_frame.Component.Untouched.{reconcile-IsFramed}
use operator_component_frame.Component.Transition.{IsUpdated, record_convergence-IsUpdated}
use operator_component_frame.Component.{Clocked, earliest_grace_remaining}
use operator_component_frame.Component.Earliest.{AtMost, answer, earliest_grace_remaining-AtMost}
use operator_component_frame.Converge.{results_healthy, filter_participators}
use operator_component_frame.Grace.{grace_expired}
use operator_component_frame.Resource.{ReconcileResult}
use operator_component_frame.Cluster.{State}
use operator_component_frame.Component.Deadline.{
  Reconciliation, IsHeld, record_rounds, record_rounds-IsHeld,
}
use operator_component_frame.Topology.{
  validate_data_topology, visit_all, visit, check_reads, check_read, check_name, is_produced,
  check_writes, check_write, add_cell,
}
use operator_component_frame.Topology.Order.{IsOrdered, validate_data_topology-IsOrdered}
use operator_component_frame.Examples.Samples.{condition_of, shop}
use operator_component_frame.Examples.Clusters.{
  producer, consumer, Store, stored_entry, stocked, sample_context, web_component,
}

abbrev two_components : List (Clocked Store)
two_components =
    record { component = web_component; converged_at = 0; now = 9 }
    ∷ record {
      component = record web_component { condition_type = "DbReady" };
      converged_at = 7;
      now = 8;
    }
    ∷ []

abbrev gate_error : Error
gate_error = new_error "no such version"

abbrev broken : Component Store
broken = record web_component { feature_gate = some (err gate_error) }

broken_fails : (reconcile sample_context broken stocked).error ≡ some gate_error
unfolding ◌>>=◌ pure fail_with gets change_conditions clear_cells check_mapper check_gate after_gate
    fail_reporting report apply_status_condition prologue after_prologue reconcile
broken_fails = refl

reconcile-IsReported_example :
    IsReported sample_context broken gate_error (reconcile sample_context broken stocked).state
reconcile-IsReported_example =
    reconcile-IsReported sample_context broken stocked gate_error broken_fails

reconcile-IsFramed_example :
    IsFramed sample_context "DbReady" stocked (reconcile sample_context web_component stocked).state
reconcile-IsFramed_example =
    reconcile-IsFramed sample_context web_component "DbReady" refl (λ P m h. h) stocked

record_convergence-IsUpdated_example :
    (after : Condition) × IsUpdated sample_context web_component
      (condition_of "WebReady" ConditionStatus.is_true Status.suspended 5)
      (converged_condition sample_context web_component [] stocked)
      after
    × (list_meta.find_status_condition
          (record_convergence sample_context web_component [] stocked).1.owner.conditions
          "WebReady"
        ≡ some after)
unfolding list_meta find_first
record_convergence-IsUpdated_example =
    record_convergence-IsUpdated sample_context web_component [] stocked
      (condition_of "WebReady" ConditionStatus.is_true Status.suspended 5) refl

abbrev creating_since : ℕ → Condition
creating_since at = condition_of "WebReady" ConditionStatus.is_false Status.creating at

abbrev creating_shop : State Store
creating_shop = record stocked { owner = record shop { conditions = creating_since 100 ∷ [] } }

abbrev unready : ReconcileResult Store
unready = record {
  entry = stored_entry "settings";
  status = record { status = Status.scaling; reason = "1/2 ready" };
  grace_status = none;
}

abbrev waiting : List (Reconciliation Store)
waiting =
    record { env = []; generation = 3; now = 120; wall = 121; results = unready ∷ [] }
    ∷ record {
      env = [];
      generation = 4;
      now = 160;
      wall = 160;
      results =
          record unready { status = record { status = Status.failing; reason = "crash" } } ∷ [];
    }
    ∷ []

record_rounds-IsHeld_example :
    (after : Condition) × IsHeld (creating_since 100) after
    × (list_meta.find_status_condition
          (record_rounds sample_context web_component waiting creating_shop).owner.conditions
          "WebReady"
        ≡ some after)
unfolding list_meta find_first is_sticky results_healthy filter_participators grace_expired
record_rounds-IsHeld_example =
    record_rounds-IsHeld sample_context web_component waiting creating_shop (creating_since 100)
      refl refl ((refl, refl), ((refl, refl), tt))

earliest_grace_remaining-AtMost_example :
    All
      (λ (p : Clocked Store).
        AtMost
          (earliest_grace_remaining list_meta (stocked.owner) two_components)
          (answer list_meta (stocked.owner) p))
      two_components
    × ((earliest_grace_remaining list_meta (stocked.owner) two_components ≡ none)
        ⊎ Any
            (λ (p : Clocked Store).
              answer list_meta (stocked.owner) p
              ≡ earliest_grace_remaining list_meta (stocked.owner) two_components)
            two_components)
earliest_grace_remaining-AtMost_example =
    earliest_grace_remaining-AtMost list_meta (stocked.owner) two_components

ordered_is_valid : (validate_data_topology "web" (producer ∷ consumer ∷ [])).1 ≡ []
unfolding validate_data_topology visit_all visit check_reads check_read check_name is_produced
    check_writes check_write add_cell
ordered_is_valid = refl

validate_data_topology-IsOrdered_example : IsOrdered [] (producer ∷ consumer ∷ [])
validate_data_topology-IsOrdered_example =
    validate_data_topology-IsOrdered "web" (producer ∷ consumer ∷ []) ordered_is_valid
