-- ===== src/Pipeline/Sent.antt =====
-- What the loop of `reconcileResources` sends to the cluster.
use operator_component_frame.Prelude.{
  String, ◌≡◌, sym, Bool, true, Option, none, some, List, [], ◌∷◌, Result, ok, err, Error,
  if◌then◌else◌,
}
use mathlib.Core.Path.{subst}
use operator_component_frame.Status.{StatusWithReason}
use operator_component_frame.Resource.{Resource, ReconcileEntry, ReconcileResult}
use operator_component_frame.Cluster.{Api, Call}
use operator_component_frame.Cluster.Monad.{Action}
use operator_component_frame.Cluster.Sends.{Sends, sends_rules, bind-Sends, attempt-Sends}
use operator_component_frame.Apply.Sent.{
  IsApplyCall, read_resource-Sends, apply_resource-Sends, extract_resource_data-Sends,
}
use operator_component_frame.Delete.Observing.{observe_controller-Sends}
use operator_component_frame.Pipeline.{
  Round, guard_with, guard_reason, controller_reason, after_error, after_process, process,
  unless_blocked, reconcile_one, after_round, reconcile_from,
}

module _ {W : Type 0} {P : Call → Type 0} where
  guard_with-Sends :
      (identity : String) (g : Option (W → Result StatusWithReason))
      → Sends P (guard_with identity g)
  unfolding guard_with
  guard_with-Sends identity none = search sends_rules
  guard_with-Sends identity (some g) = search sends_rules depth 20

  guard_reason-Sends : (r : Resource W) → Sends P (guard_reason r)
  unfolding guard_reason
  guard_reason-Sends r = guard_with-Sends r.identity r.guardable

module _ {W : Type 0} {P : Call → Type 0} (api : Api W) where
  controller_reason-Sends : (entry : ReconcileEntry W) → Sends P (controller_reason api entry)
  unfolding controller_reason
  controller_reason-Sends entry = search (sends_rules, observe_controller-Sends) depth 20

  after_error-Sends : (entry : ReconcileEntry W) (e : Error) → Sends P (after_error api entry e)
  unfolding after_error
  after_error-Sends entry e = search sends_rules depth 20

  after_process-Sends :
      (entry : ReconcileEntry W) (r : Result (Option StatusWithReason))
      → Sends P (after_process api entry r)
  unfolding after_process
  after_process-Sends entry (err e) = after_error-Sends entry e
  after_process-Sends entry (ok status) = search (sends_rules, extract_resource_data-Sends) depth 20

  unless_blocked-Sends :
      (entry : ReconcileEntry W) (reason : Option String) (next : Action W (Round W))
      → Sends P next
      → Sends P (unless_blocked api entry reason next)
  unfolding unless_blocked
  unless_blocked-Sends entry (some reason) next h = search sends_rules
  unless_blocked-Sends entry none next h = h

  -- A round sends what its processing sends.
  reconcile_one-Sends :
      (component_name field_owner : String) (entry : ReconcileEntry W)
      → Sends P (process api component_name field_owner entry)
      → Sends P (reconcile_one api component_name field_owner entry)
  unfolding reconcile_one
  reconcile_one-Sends component_name field_owner entry h =
      search (sends_rules, guard_reason-Sends, controller_reason-Sends, unless_blocked-Sends) depth
        20

  after_round-Sends :
      (rest : Action W (List (ReconcileResult W))) (round : Round W)
      → Sends P rest
      → Sends P (after_round api rest round)
  unfolding after_round
  after_round-Sends rest (Round.blocked r) h = search sends_rules
  after_round-Sends rest (Round.done o) h = search sends_rules

module _ {W : Type 0} (api : Api W) where
  if_true-Sends :
      {P : Call → Type 0} {A : Type 0} (b : Bool) (m n : Action W A)
      → b ≡ true
      → Sends P m
      → Sends P (if b then m else n)
  if_true-Sends {P = P} b m n h k = subst (λ (x : Bool). Sends P (if x then m else n)) (sym h) k

  process-Sends :
      (component_name field_owner : String) (entry : ReconcileEntry W)
      → Sends (IsApplyCall field_owner "") (process api component_name field_owner entry)
  unfolding process
  process-Sends component_name field_owner entry =
      search (sends_rules, read_resource-Sends, apply_resource-Sends, after_process-Sends) depth 20

  process_read-Sends :
      {P : Call → Type 0} (component_name field_owner : String) (entry : ReconcileEntry W)
      → entry.options.read_only ≡ true
      → Sends P (process api component_name field_owner entry)
  unfolding process
  process_read-Sends component_name field_owner entry h =
      bind-Sends _ _
        (attempt-Sends _ (if_true-Sends _ _ _ h (read_resource-Sends api entry.resource)))
        (λ r. after_process-Sends api entry r)

  -- Reconciling resources never deletes, and never updates: whatever the guards, the readings and the
  -- errors on the way, it sends only patches, events and metrics. Each patch is made by the field owner
  -- given, without a resource version and without the fields that the server fills in. The owner
  -- is left alone.
  pub reconcile_from-Sends :
      (component_name field_owner : String) (entries : List (ReconcileEntry W))
      → Sends (IsApplyCall field_owner "") (reconcile_from api component_name field_owner entries)
  unfolding reconcile_from
  reconcile_from-Sends component_name field_owner [] = search sends_rules
  reconcile_from-Sends component_name field_owner (entry ∷ entries) =
      let h = reconcile_from-Sends component_name field_owner entries in
      let k =
        reconcile_one-Sends api component_name field_owner entry
          (process-Sends component_name field_owner entry) in
      search (sends_rules, after_round-Sends) depth 20

  -- A round of a read-only entry sends nothing at all.
  pub reconcile_one_read_only-Sends :
      (component_name field_owner : String) (entry : ReconcileEntry W)
      → entry.options.read_only ≡ true
      → Sends (λ c. ⊥) (reconcile_one api component_name field_owner entry)
  unfolding process
  reconcile_one_read_only-Sends component_name field_owner entry h =
      reconcile_one-Sends api component_name field_owner entry
        (process_read-Sends component_name field_owner entry h)
