-- ===== src/Apply.antt =====
-- pkg/component/create.go and pkg/component/read.go: one resource is applied or read.
pub mod Sent
use operator_component_frame.Prelude.{
  String, Bool, true, false, not, Option, none, some, List, [], ◌∷◌, Result, ok, err, Error, concat,
  is_not_found, if◌then◌else◌,
}
use operator_component_frame.Status.{StatusWithReason, ConvergingOperation}
use operator_component_frame.Resource.{Object, Resource}
use operator_component_frame.Cluster.{Api, Call, ResourceMetricLabels}
use operator_component_frame.Cluster.Monad.{
  Action, pure, fail_with, ◌>>=◌, ◌>>◌, attempt, lift, wrapping, gets, outside, outside_error,
  change_outside, record_call, when_true,
}
use operator_component_frame.Objects.{
  ensure_gvk, applied_object_changed, resource_metric_labels, set_owner, clear_server_fields,
}

abbrev as_asked : Result StatusWithReason → Result (Option StatusWithReason)
as_asked (ok s) = ok (some s)
as_asked (err e) = err e

module _ {W : Type 0} where
  abbrev or_ask :
      ConvergingOperation
      → W
      → Option (ConvergingOperation → W → Result StatusWithReason)
      → Result (Option StatusWithReason)
      → Result (Option StatusWithReason)
  or_ask op w (some f) other = as_asked (f op w)
  or_ask op w none other = other

  -- `getConvergingStatus`: Alive goes before Operational, and that before Completable
  unfoldable pub get_converging_status :
      Resource W → ConvergingOperation → W → Result (Option StatusWithReason)
  get_converging_status resource op w =
      or_ask op w resource.alive
        (or_ask op w resource.operational (or_ask op w resource.completable (ok none)))

  unfoldable pub extract_with : String → Option (W → Option Error × W) → Action W (Unit {0})
  extract_with identity none = pure tt
  extract_with identity (some extract) =
      wrapping ("failed to extract data from resource " ∷ identity ∷ []) (outside_error extract)

  -- `extractResourceData` for one resource
  unfoldable pub extract_resource_data : Resource W → Action W (Unit {0})
  extract_resource_data resource = extract_with resource.identity resource.data_extractable

  unfoldable pub observe_with :
      String → Object → Option (Object → W → Option Error × W) → Action W (Unit {0})
  observe_with identity live none = pure tt
  observe_with identity live (some recorder) =
      wrapping ("failed to record observation for resource " ∷ identity ∷ [])
        (outside_error (recorder live))

module _ {W : Type 0} (api : Api W) where
  -- `applyFailed` around a step: its error is counted and returned
  unfoldable pub or_apply_failed : {A : Type 0} → ResourceMetricLabels → Result A → Action W A
  or_apply_failed labels (ok a) = pure a
  or_apply_failed labels (err e) = do
    when_true api.has_metrics (record_call (Call.apply_error_metric labels))
    fail_with e

  -- a step whose error gets a context and is counted
  unfoldable pub checked :
      {A : Type 0} → ResourceMetricLabels → List String → Action W A → Action W A
  checked labels ctx m = do r ← attempt (wrapping ctx m); or_apply_failed labels r

  abbrev pub found_or_absent : Result Object → Result (Option Object)
  found_or_absent (ok o) = ok (some o)
  found_or_absent (err e) = if is_not_found e then ok none else err e

  -- what a `Get` of the object's key into the empty target is given
  abbrev pub addressed : Object → Object → Object
  addressed obj empty = record empty { namespace = obj.namespace; name = obj.name }

  -- a read that takes an absent object for an answer
  unfoldable pub look : (Object → W → Result Object × W) → Object → Action W (Option Object)
  look read obj = do r ← attempt (outside (read obj)); lift (found_or_absent r)

  abbrev operation_of : Object → Option Object → Result ConvergingOperation
  operation_of response none = ok ConvergingOperation.created
  operation_of response (some existing) = elim (applied_object_changed api existing response) [
    | err e ↦ err e
    | ok changed ↦ ok (if changed then ConvergingOperation.updated else ConvergingOperation.none_op)
  ]

  abbrev is_unchanged : ConvergingOperation → Bool
  is_unchanged ConvergingOperation.none_op = true
  is_unchanged _ = false

  -- `applyOperationReason`, `applyOperationMessage` and `applyOperationAction`
  abbrev event_for : ConvergingOperation → String → String → Call
  event_for ConvergingOperation.created kind name =
      Call.event (concat ("Created" ∷ kind ∷ [])) "Create"
        (concat ("Created " ∷ kind ∷ " '" ∷ name ∷ "'" ∷ []))
  event_for ConvergingOperation.updated kind name =
      Call.event (concat ("Updated" ∷ kind ∷ [])) "Update"
        (concat ("Updated " ∷ kind ∷ " '" ∷ name ∷ "'" ∷ []))
  event_for ConvergingOperation.none_op kind name =
      Call.event (concat ("Unchanged" ∷ kind ∷ [])) "Unchanged"
        (concat (kind ∷ " '" ∷ name ∷ "' left unchanged" ∷ []))

  -- `RecordApplyOperationEvent`
  unfoldable pub record_apply_operation_event : ConvergingOperation → Object → Action W (Unit {0})
  record_apply_operation_event op obj =
      when_true (not (is_unchanged op)) (record_call (event_for op (api.type_name obj) obj.name))

  -- the write of a server-side apply; the response lands in the object that `Mutate` kept
  unfoldable pub send_patch : Resource W → String → Object → Action W Object
  send_patch resource field_owner obj = do
    change_outside (resource.write_mutated obj)
    record_call (Call.patched field_owner obj)
    response ← outside (api.patch field_owner obj)
    change_outside (resource.write_mutated response)
    pure response

  -- the end of `applyResource`, from the patch on
  unfoldable pub send_typed :
      Resource W
      → ResourceMetricLabels
      → String
      → Option Object
      → Object
      → Action W (Option StatusWithReason)
  send_typed resource labels field_owner existing typed = do
    response ←
        checked labels ("failed to apply resource " ∷ resource.identity ∷ [])
          (send_patch resource field_owner typed)
    op ←
        checked labels ("failed to compare applied state of resource " ∷ resource.identity ∷ [])
          (lift (operation_of response existing))
    w ← gets (λ s. s.env)
    status ←
        checked labels
          ("failed to determine converging status of resource " ∷ resource.identity ∷ [])
          (lift (get_converging_status resource op w))
    record_apply_operation_event op response
    when_true api.has_metrics (record_call (Call.apply_metric labels op))
    pure status

  -- what is sent of a mutated object: no server fields, and the resource version asked for
  unfoldable pub body_of : String → Object → Object
  body_of resource_version mutated = record (clear_server_fields mutated) {
    resource_version = resource_version;
  }

  unfoldable pub send_mutated :
      Resource W
      → ResourceMetricLabels
      → String
      → String
      → Option Object
      → Object
      → Action W (Option StatusWithReason)
  send_mutated resource labels field_owner resource_version existing mutated = do
    typed ←
        checked labels ("failed to determine GVK for resource " ∷ resource.identity ∷ [])
          (lift (ensure_gvk api (body_of resource_version mutated)))
    send_typed resource labels field_owner existing typed

  -- `applyResource` from the lookup of the existing object on
  unfoldable pub apply_object :
      Resource W
      → ResourceMetricLabels
      → String
      → Bool
      → String
      → Object
      → Action W (Option StatusWithReason)
  apply_object resource labels field_owner skip_owner_ref resource_version obj = do
    empty ←
        checked labels ("failed to prepare existence check for resource " ∷ resource.identity ∷ [])
          (lift (api.empty_object_like obj))
    existing ←
        checked labels ("failed to check existence of resource " ∷ resource.identity ∷ [])
          (look api.get (addressed obj empty))
    owner ← gets (λ s. s.owner)
    mutated ← checked labels ("failed to mutate resource " ∷ resource.identity ∷ []) (
        outside (resource.mutate obj) >>= λ o. lift (set_owner api owner resource skip_owner_ref o))
    send_mutated resource labels field_owner resource_version existing mutated.0

  -- `applyResource`
  unfoldable pub apply_resource :
      Resource W → String → String → Bool → String → Action W (Option StatusWithReason)
  apply_resource resource component_name field_owner skip_owner_ref resource_version = do
    w ← gets (λ s. s.env)
    plain ←
        wrapping ("failed to retrieve object for resource " ∷ resource.identity ∷ [])
          (lift (resource.object w))
    obj ←
        wrapping ("failed to determine GVK for resource " ∷ resource.identity ∷ [])
          (lift (ensure_gvk api plain))
    change_outside (resource.write_object obj)
    owner ← gets (λ s. s.owner)
    apply_object resource (resource_metric_labels api owner component_name resource obj) field_owner
        skip_owner_ref resource_version obj

  -- `readResource`
  unfoldable pub read_resource : Resource W → Action W (Option StatusWithReason)
  read_resource resource = do
    w ← gets (λ s. s.env)
    obj ←
        wrapping ("failed to retrieve read-only object from resource " ∷ resource.identity ∷ [])
          (lift (resource.object w))
    live ←
        wrapping
          ("failed to retrieve read-only resource " ∷ resource.identity ∷ " from the k8s api" ∷ [])
          (outside (api.get obj))
    change_outside (resource.write_object live)
    observe_with resource.identity live resource.observation_recorder
    w' ← gets (λ s. s.env)
    wrapping ("failed to determine converging status of resource " ∷ resource.identity ∷ [])
        (lift (get_converging_status resource ConvergingOperation.none_op w'))
