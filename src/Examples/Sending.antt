-- ===== src/Examples/Sending.antt =====
-- The theorems on what is sent to the cluster, applied.
use operator_component_frame.Prelude.{◌≡◌, refl, false, none, List, [], ◌∷◌, All, Any, ◌⊎◌, ◌≤◌}
use operator_component_frame.Status.{Status, StatusWithReason, suspension_priority}
use operator_component_frame.Cluster.Sends.{IsSent, Sends, SendsFor}
use operator_component_frame.Objects.{apply_field_owner}
use operator_component_frame.Apply.{apply_resource}
use operator_component_frame.Apply.Sent.{IsApplyCall, apply_resource-Sends}
use operator_component_frame.Delete.{delete_all}
use operator_component_frame.Delete.Safety.{IsDeletionCall, delete_all-IsSent}
use operator_component_frame.Orphan.{orphan_all}
use operator_component_frame.Orphan.Sent.{IsOrphanCall, orphan_all-IsSent}
use operator_component_frame.Pipeline.{reconcile_one, reconcile_from}
use operator_component_frame.Pipeline.Sent.{reconcile_from-Sends, reconcile_one_read_only-Sends}
use operator_component_frame.Pipeline.Stopping.{Run, reconcile_from-Run}
use operator_component_frame.Suspend.{suspend_resource, suspension_summary}
use operator_component_frame.Suspend.Sent.{IsSuspensionCall, suspend_resource-SendsFor}
use operator_component_frame.Suspend.Summary.{suspension_summary-IsWorst}
use operator_component_frame.Examples.Samples.{shop}
use operator_component_frame.Examples.Clusters.{
  store_api, stored_resource, stored_entry, guarded_entry, read_entry, careful_entry, stocked,
  text_length, once, deletable,
}

apply_resource-Sends_example :
    Sends
      (IsApplyCall "Shop/web/u1" "4")
      (apply_resource store_api (stored_resource "settings" none) "web" "Shop/web/u1" false "4")
apply_resource-Sends_example =
    apply_resource-Sends store_api (stored_resource "settings" none) "web" "Shop/web/u1" false "4"

delete_all-IsSent_example :
    IsSent
      (IsDeletionCall store_api "resource deletion flag"
        (stored_entry "secret" ∷ careful_entry ∷ [])
        shop
        stocked)
      stocked
      (delete_all store_api "resource deletion flag"
        (stored_entry "secret" ∷ careful_entry ∷ [])
        stocked).1
delete_all-IsSent_example =
    delete_all-IsSent store_api "resource deletion flag"
      (stored_entry "secret" ∷ careful_entry ∷ []) stocked

orphan_all-IsSent_example :
    IsSent
      (IsOrphanCall "u1")
      stocked
      (orphan_all store_api once "u1" (stored_resource "old" none ∷ []) stocked).1
orphan_all-IsSent_example =
    orphan_all-IsSent store_api "u1" once (λ m h. h) (stored_resource "old" none ∷ []) stocked

reconcile_from-Sends_example : Sends (IsApplyCall "Shop/web/u1" "") (
    reconcile_from store_api "web" "Shop/web/u1"
      (read_entry ∷ stored_entry "settings" ∷ guarded_entry ∷ []))
reconcile_from-Sends_example =
    reconcile_from-Sends store_api "web" "Shop/web/u1"
      (read_entry ∷ stored_entry "settings" ∷ guarded_entry ∷ [])

reconcile_one_read_only-Sends_example :
    Sends (λ c. ⊥) (reconcile_one store_api "web" "Shop/web/u1" read_entry)
reconcile_one_read_only-Sends_example =
    reconcile_one_read_only-Sends store_api "web" "Shop/web/u1" read_entry refl

reconcile_from-Run_example :
    Run store_api "web" "Shop/web/u1"
      (read_entry ∷ guarded_entry ∷ stored_entry "settings" ∷ [])
      stocked
      (reconcile_from store_api "web" "Shop/web/u1"
        (read_entry ∷ guarded_entry ∷ stored_entry "settings" ∷ [])
        stocked)
reconcile_from-Run_example =
    reconcile_from-Run store_api "web" "Shop/web/u1"
      (read_entry ∷ guarded_entry ∷ stored_entry "settings" ∷ []) stocked

suspend_resource-SendsFor_example :
    SendsFor shop
      (λ c.
        IsSuspensionCall store_api
          (apply_field_owner store_api text_length shop "web")
          careful_entry
          shop
          c)
      (suspend_resource store_api text_length "web" careful_entry deletable)
suspend_resource-SendsFor_example =
    suspend_resource-SendsFor store_api text_length "web" shop careful_entry deletable

abbrev some_suspending : List StatusWithReason
some_suspending =
    record { status = Status.suspended; reason = "" }
    ∷ record { status = Status.suspending; reason = "2 replicas left" }
    ∷ []

suspension_summary-IsWorst_example :
    All
      (λ (r : StatusWithReason).
        suspension_priority r.status
        ≤ suspension_priority (suspension_summary some_suspending).status)
      some_suspending
    × (((suspension_summary some_suspending).status ≡ Status.suspended)
        ⊎ Any
            (λ (r : StatusWithReason). r.status ≡ (suspension_summary some_suspending).status)
            some_suspending)
suspension_summary-IsWorst_example = suspension_summary-IsWorst some_suspending
