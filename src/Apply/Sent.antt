-- ===== src/Apply/Sent.antt =====
-- What applying a resource sends to the cluster, and that reading one sends nothing.
use operator_component_frame.Prelude.{
  String, ◌≡◌, refl, Bool, Option, none, some, List, [], Result, ok, err, Error, arith,
}
use operator_component_frame.Status.{ConvergingOperation}
use operator_component_frame.Resource.{Object, Resource}
use operator_component_frame.Cluster.{Api, State, Call, ResourceMetricLabels}
use operator_component_frame.Cluster.Monad.{
  Action, pure, fail_with, ◌>>=◌, attempt, lift, wrapping, record_call, when_true,
}
use operator_component_frame.Cluster.Sends.{Sends, bind-Sends_where, sends_rules}
use operator_component_frame.Objects.{ensure_gvk, clear_server_fields}
use operator_component_frame.Apply.{
  or_apply_failed, checked, look, extract_with, observe_with, record_apply_operation_event,
  send_patch, body_of, send_typed, send_mutated, apply_object, apply_resource, read_resource,
  extract_resource_data,
}

-- An object that carries nothing that the server fills in, but the resource version asked for.
pub record IsClean (resource_version : String) (o : Object) : Type 0 where
  pub version : o.resource_version ≡ resource_version
  pub no_uid : o.uid ≡ ""
  pub no_generation : o.generation ≡ 0
  pub no_managed_fields : o.managed_fields ≡ []
  pub no_deletion : o.deletion_timestamp ≡ none
  pub no_grace : o.deletion_grace_period_seconds ≡ none
  pub no_link : o.self_link ≡ ""

-- The calls that an apply may make: patches by one field owner of clean objects, events, metrics.
abbrev pub IsApplyCall : String → String → Call → Type 0
IsApplyCall field_owner resource_version (Call.patched f o) =
    (f ≡ field_owner) × IsClean resource_version o
IsApplyCall field_owner resource_version (Call.event a b c) = Unit
IsApplyCall field_owner resource_version (Call.apply_metric l op) = Unit
IsApplyCall field_owner resource_version (Call.apply_error_metric l) = Unit
IsApplyCall field_owner resource_version _ = ⊥

body_of-IsClean : {W : Type 0} (api : Api W) (o : Object) (v : String) → IsClean v (body_of api v o)
unfolding body_of clear_server_fields
body_of-IsClean api o v = record {
  version = refl;
  no_uid = refl;
  no_generation = refl;
  no_managed_fields = refl;
  no_deletion = refl;
  no_grace = refl;
  no_link = refl;
}

module _ {W : Type 0} (api : Api W) where
  ensure_gvk-IsClean :
      (v : String) (o p : Object) → IsClean v o → ensure_gvk api o ≡ ok p → IsClean v p
  unfolding ensure_gvk
  ensure_gvk-IsClean v o p h e = ground arith

  -- a checked value is the value of the step
  checked-lift :
      {A : Type 0} (labels : ResourceMetricLabels) (ctx : List String) (r : Result A) (s : State W)
      (a : A)
      → (checked api labels ctx (lift r) s).0 ≡ ok a
      → r ≡ ok a
  unfolding checked or_apply_failed attempt wrapping lift pure fail_with when_true record_call ◌>>=◌
  checked-lift labels ctx (ok b) s a e = e
  checked-lift labels ctx (err x) s a e = ground arith

module _ {W : Type 0} {P : Call → Type 0} (api : Api W) where
  or_apply_failed-Sends :
      {A : Type 0} (labels : ResourceMetricLabels) (r : Result A)
      → P (Call.apply_error_metric labels)
      → Sends P (or_apply_failed api labels r)
  unfolding or_apply_failed
  or_apply_failed-Sends labels (ok a) h = search sends_rules
  or_apply_failed-Sends labels (err e) h = search sends_rules

  pub checked-Sends :
      {A : Type 0} (labels : ResourceMetricLabels) (ctx : List String) (m : Action W A)
      → P (Call.apply_error_metric labels)
      → Sends P m
      → Sends P (checked api labels ctx m)
  unfolding checked
  checked-Sends labels ctx m h k = search (sends_rules, or_apply_failed-Sends)

  pub look-Sends : (read : Object → W → Result Object × W) (o : Object) → Sends P (look api read o)
  unfolding look
  look-Sends read o = search sends_rules

  pub observe_with-Sends :
      (identity : String) (live : Object) (o : Option (Object → W → Option Error × W))
      → Sends P (observe_with identity live o)
  unfolding observe_with
  observe_with-Sends identity live none = search sends_rules
  observe_with-Sends identity live (some f) = search sends_rules

module _ {W : Type 0} {P : Call → Type 0} where
  extract_with-Sends :
      (identity : String) (o : Option (W → Option Error × W)) → Sends P (extract_with identity o)
  unfolding extract_with
  extract_with-Sends identity none = search sends_rules
  extract_with-Sends identity (some f) = search sends_rules

  pub extract_resource_data-Sends : (r : Resource W) → Sends P (extract_resource_data r)
  unfolding extract_resource_data
  extract_resource_data-Sends r = extract_with-Sends r.identity r.data_extractable

module _ {W : Type 0} (api : Api W) where
  -- Reading a read-only resource sends nothing to the cluster, no event and no metric, and leaves
  -- the owner alone, whatever the outcome: the only calls of the client are reads.
  pub read_resource-Sends : {P : Call → Type 0} (r : Resource W) → Sends P (read_resource api r)
  unfolding read_resource
  read_resource-Sends r = search (sends_rules, observe_with-Sends) depth 20

  send_patch-Sends :
      (r : Resource W) (field_owner v : String) (o : Object)
      → IsClean v o
      → Sends (IsApplyCall field_owner v) (send_patch api r field_owner o)
  unfolding send_patch
  send_patch-Sends r field_owner v o h = search sends_rules

  record_apply_operation_event-Sends :
      (field_owner v : String) (op : ConvergingOperation) (o : Object)
      → Sends (IsApplyCall field_owner v) (record_apply_operation_event api op o)
  unfolding record_apply_operation_event
  record_apply_operation_event-Sends field_owner v ConvergingOperation.created o =
      search sends_rules
  record_apply_operation_event-Sends field_owner v ConvergingOperation.updated o =
      search sends_rules
  record_apply_operation_event-Sends field_owner v ConvergingOperation.none_op o =
      search sends_rules

  send_typed-Sends :
      (r : Resource W) (labels : ResourceMetricLabels) (field_owner v : String)
      (existing : Option Object) (o : Object)
      → IsClean v o
      → Sends (IsApplyCall field_owner v) (send_typed api r labels field_owner existing o)
  unfolding send_typed
  send_typed-Sends r labels field_owner v existing o h =
      search (sends_rules, checked-Sends, send_patch-Sends, record_apply_operation_event-Sends)
        depth 20

  send_mutated-Sends :
      (r : Resource W) (labels : ResourceMetricLabels) (field_owner v : String)
      (existing : Option Object) (o : Object)
      → Sends (IsApplyCall field_owner v) (send_mutated api r labels field_owner v existing o)
  unfolding send_mutated
  send_mutated-Sends r labels field_owner v existing o =
      bind-Sends_where (IsClean v) _ _ (search (sends_rules, checked-Sends))
        (λ s a e.
          ensure_gvk-IsClean api v (body_of api v o) a (body_of-IsClean api o v)
            (checked-lift api labels _ _ s a e))
        (λ a h. send_typed-Sends r labels field_owner v existing a h)

  apply_object-Sends :
      (r : Resource W) (labels : ResourceMetricLabels) (field_owner : String) (skip : Bool)
      (v : String) (o : Object)
      → Sends (IsApplyCall field_owner v) (apply_object api r labels field_owner skip v o)
  unfolding apply_object
  apply_object-Sends r labels field_owner skip v o =
      search (sends_rules, checked-Sends, look-Sends, send_mutated-Sends) depth 20

  -- An apply makes no other calls than patches by the field owner given, and events and metrics:
  -- it deletes nothing. Each patched object carries the resource version asked for and none of the
  -- fields that the server fills in, whatever the mutations did, and the owner is left alone.
  pub apply_resource-Sends :
      (r : Resource W) (component_name field_owner : String) (skip : Bool) (v : String)
      → Sends (IsApplyCall field_owner v) (apply_resource api r component_name field_owner skip v)
  unfolding apply_resource
  apply_resource-Sends r component_name field_owner skip v =
      search (sends_rules, apply_object-Sends) depth 20
