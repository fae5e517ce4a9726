-- ===== src/Pipeline.antt =====
-- pkg/component/create.go: `reconcileResources` and `applyResources`.
pub mod Stopping
pub mod Sent
use operator_component_frame.Prelude.{
  String, not, ◌&&◌, Option, none, some, List, [], ◌∷◌, Result, ok, err, Error, concat, ℕ,
  is_not_found, if◌then◌else◌,
}
use operator_component_frame.Status.{Status, StatusWithReason}
use operator_component_frame.Resource.{Resource, ReconcileEntry, ReconcileResult}
use operator_component_frame.Cluster.{Api}
use operator_component_frame.Cluster.Monad.{
  Action, pure, fail_with, ◌>>=◌, ◌>>◌, attempt, lift, wrapping, gets,
}
use operator_component_frame.Status.{is_guard_blocked}
use operator_component_frame.Objects.{apply_field_owner, foreign_controller_reason}
use operator_component_frame.Apply.{apply_resource, read_resource, extract_resource_data}
use operator_component_frame.Delete.{observe_controller}

-- How one round of `reconcileResources` ends: the loop goes on, with or without a result, or it
-- stops at a blocked resource.
pub data Round (W : Type 0) : Type 0 where
  done : Option (ReconcileResult W) → Round W
  blocked : ReconcileResult W → Round W

module _ {W : Type 0} where
  abbrev pub blocked_by : ReconcileEntry W → String → Round W
  blocked_by entry reason = Round.blocked (record {
    entry = entry;
    status = record { status = Status.guard_blocked; reason = reason };
    grace_status = none;
  })

  abbrev pub done_with : ReconcileEntry W → Option StatusWithReason → Round W
  done_with entry none = Round.done none
  done_with entry (some s) =
      Round.done (some (record { entry = entry; status = s; grace_status = none }))

  unfoldable pub guard_with :
      String → Option (W → Result StatusWithReason) → Action W (Option String)
  guard_with identity none = pure none
  guard_with identity (some guard) = do
    w ← gets (λ s. s.env)
    g ← wrapping ("failed to evaluate guard for resource " ∷ identity ∷ []) (lift (guard w))
    pure (if is_guard_blocked g.status then some g.reason else none)

  -- the guard of a resource: the reason that it is blocked for
  unfoldable pub guard_reason : Resource W → Action W (Option String)
  guard_reason resource = guard_with resource.identity resource.guardable

module _ {W : Type 0} where
  abbrev pub kept : Option (ReconcileResult W) → List (ReconcileResult W) → List (ReconcileResult W)
  kept none rs = rs
  kept (some r) rs = r ∷ rs

module _ {W : Type 0} (api : Api W) where
  -- the owner that controls a managed resource, where the options ask for the check
  unfoldable pub controller_reason : ReconcileEntry W → Action W (Option String)
  controller_reason entry =
      if entry.options.block_on_foreign_controller && not entry.options.read_only
      then (do
        seen ← observe_controller api entry.resource
        pure (elim seen.controller [
          | none ↦ none
          | some controller ↦ some (foreign_controller_reason controller)
        ]))
      else pure none

  -- what becomes of an absent read-only resource, or of another error
  unfoldable pub after_error : ReconcileEntry W → Error → Action W (Round W)
  after_error entry e =
      if entry.options.read_only && is_not_found e
      then (if entry.options.ignore_if_absent
          then pure (Round.done none)
          else (if entry.options.block_on_absence
              then pure (blocked_by entry (concat ("waiting for " ∷ entry.resource.identity ∷ [])))
              else fail_with e))
      else fail_with e

  unfoldable pub after_process :
      ReconcileEntry W → Result (Option StatusWithReason) → Action W (Round W)
  after_process entry (err e) = after_error entry e
  after_process entry (ok status) = do
    extract_resource_data entry.resource
    pure (done_with entry status)

  -- a resource that nothing blocks is read or applied, and its data is extracted
  unfoldable pub process : String → String → ReconcileEntry W → Action W (Round W)
  process component_name field_owner entry = do
    r ← attempt (
        if entry.options.read_only
        then read_resource api entry.resource
        else apply_resource api entry.resource component_name field_owner entry.options.unowned "")
    after_process entry r

  unfoldable pub unless_blocked :
      ReconcileEntry W → Option String → Action W (Round W) → Action W (Round W)
  unless_blocked entry (some reason) next = pure (blocked_by entry reason)
  unless_blocked entry none next = next

  -- one round of `reconcileResources`
  unfoldable pub reconcile_one : String → String → ReconcileEntry W → Action W (Round W)
  reconcile_one component_name field_owner entry = do
    guard ← guard_reason entry.resource
    unless_blocked entry guard (do
      controlled ← controller_reason entry
      unless_blocked entry controlled (process component_name field_owner entry))

  -- what a round leaves to the rest of the loop
  unfoldable pub after_round :
      Action W (List (ReconcileResult W)) → Round W → Action W (List (ReconcileResult W))
  after_round rest (Round.blocked r) = pure (r ∷ [])
  after_round rest (Round.done result) = do rs ← rest; pure (kept result rs)

  -- the loop of `reconcileResources`
  unfoldable pub reconcile_from :
      String → String → List (ReconcileEntry W) → Action W (List (ReconcileResult W))
  reconcile_from component_name field_owner [] = pure []
  reconcile_from component_name field_owner (entry ∷ entries) =
      reconcile_one component_name field_owner entry
      >>= after_round (reconcile_from component_name field_owner entries)

  -- `reconcileResources`
  unfoldable pub reconcile_resources :
      (String → ℕ) → String → List (ReconcileEntry W) → Action W (List (ReconcileResult W))
  reconcile_resources len component_name entries = do
    owner ← gets (λ s. s.owner)
    reconcile_from component_name (apply_field_owner api len owner component_name) entries

  -- `applyResources` for one entry, as `suspendResource` calls it; its results are not used
  unfoldable pub apply_entry :
      (String → ℕ) → String → String → ReconcileEntry W → Action W (Unit {0})
  apply_entry len component_name resource_version entry = do
    owner ← gets (λ s. s.owner)
    apply_resource api entry.resource component_name
        (apply_field_owner api len owner component_name) entry.options.unowned resource_version
    extract_resource_data entry.resource
