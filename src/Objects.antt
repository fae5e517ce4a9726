-- ===== src/Objects.antt =====
-- pkg/component/create.go and pkg/component/orphan.go: what is computed on objects alone.
pub mod Ownership
use operator_component_frame.Prelude.{
  ℕ, String, Bool, true, false, not, ◌&&◌, Option, none, some, List, [], ◌∷◌, Result, ok, err,
  Error, new_error, concat, str_eq, length, any, select, ltb, if◌then◌else◌,
}
use operator_component_frame.Condition.{Owner}
use operator_component_frame.Resource.{OwnerReference, Object, Resource}
use operator_component_frame.Cluster.{Api, ResourceMetricLabels}
use operator_component_frame.Prelude.Results.{with_context}

-- `referencesOwner`
unfoldable pub references_owner : String → OwnerReference → Bool
references_owner owner_uid ref = str_eq ref.uid owner_uid

-- `ownedBy`
unfoldable pub owned_by : Object → String → Bool
unfolding references_owner
owned_by obj owner_uid = any (references_owner owner_uid) obj.owner_references

-- the references that point to another owner, in their order: `slices.DeleteFunc` in
-- `orphanResources`, and the in-place filter in `mutateResource`
unfoldable pub without_owner : String → List OwnerReference → List OwnerReference
unfolding references_owner
without_owner owner_uid = select (λ ref. not (references_owner owner_uid ref))

-- `clearServerFields`
unfoldable pub clear_server_fields : Object → Object
clear_server_fields obj = record obj {
  managed_fields = [];
  resource_version = "";
  uid = "";
  generation = 0;
  deletion_timestamp = none;
  deletion_grace_period_seconds = none;
  self_link = "";
}

-- `comparableContent` on the converted object: the fields that a comparison ignores are emptied
unfoldable pub comparable_content : Object → Object
comparable_content obj = record obj {
  kind = "";
  status = "";
  managed_fields = [];
  resource_version = "";
  generation = 0;
}

-- `foreignControllerReason`
unfoldable pub foreign_controller_reason : OwnerReference → String
foreign_controller_reason controller =
    concat ("controlled by " ∷ controller.kind ∷ " " ∷ controller.name ∷ [])

-- `fieldManagerMaxLength`
abbrev pub field_manager_max_length : ℕ
field_manager_max_length = 128

module _ {W : Type 0} (api : Api W) where
  -- the kind that `ensureGVK` sets, given the kinds of the scheme
  abbrev first_kind : Object → Result (List String) → Result Object
  first_kind obj (err e) = err e
  first_kind obj (ok []) =
      err (new_error (concat ("no GVK registered in scheme for type " ∷ api.type_name obj ∷ [])))
  first_kind obj (ok (k ∷ ks)) = ok (record obj { kind = k })

  -- `ensureGVK`
  unfoldable pub ensure_gvk : Object → Result Object
  ensure_gvk obj =
      if not (str_eq obj.kind "") then ok obj else first_kind obj (api.object_kinds obj)

  abbrev changed_from : Object → Result Object → Result Bool
  changed_from before (err e) = err e
  changed_from before (ok after) =
      ok (not (api.deep_equal (comparable_content before) (comparable_content after)))

  abbrev compare_with : Object → Result Object → Result Bool
  compare_with after (err e) = err e
  compare_with after (ok before) = changed_from before (api.to_unstructured after)

  -- `appliedObjectChanged`
  unfoldable pub applied_object_changed : Object → Object → Result Bool
  unfolding comparable_content
  applied_object_changed before after = compare_with after (api.to_unstructured before)

  -- the readable field manager of a component of an owner
  abbrev pub manager_name : Owner → String → String
  manager_name owner component_name =
      concat (owner.kind ∷ "/" ∷ component_name ∷ "/" ∷ owner.uid ∷ [])

  -- `applyFieldOwner`; `len` counts the bytes of a text
  unfoldable pub apply_field_owner : (len : String → ℕ) → Owner → String → String
  apply_field_owner len owner component_name =
      let manager = manager_name owner component_name in
      if ltb field_manager_max_length (len manager) then api.sha256_hex manager else manager

  abbrev identifier_or : String → Option String → String
  identifier_or default none = default
  identifier_or default (some configured) =
      if api.is_blank_text configured then default else configured

  -- `resourceMetricLabels`
  unfoldable pub resource_metric_labels :
      Owner → String → Resource W → Object → ResourceMetricLabels
  resource_metric_labels owner component_name resource obj = record {
    owner_kind = owner.kind;
    component = component_name;
    identifier = identifier_or (api.to_lower obj.kind) resource.metrics_identifier;
    kind = obj.kind;
  }

  -- the scope that the mapper gives for a kind that the scheme gave
  abbrev scope_of : Result String → Result Bool
  scope_of (err e) = err e
  scope_of (ok kind) = api.is_root_scoped kind

  abbrev owner_scope : Owner → Result Bool → Result Bool
  owner_scope owner (err e) = err e
  owner_scope owner (ok false) = ok true
  owner_scope owner (ok true) = scope_of (api.gvk_for_owner owner)

  -- `scope.CanSetOwnerReference`, with a mapper that is not nil
  unfoldable pub can_set_owner_reference : Owner → Object → Result Bool
  can_set_owner_reference owner owned = owner_scope owner (scope_of (api.gvk_for_object owned))

  abbrev skipped_or : Result Object → Result (Object × Bool)
  skipped_or (err e) = err e
  skipped_or (ok obj) = ok (obj, false)

  abbrev reference_set : Owner → Resource W → Object → Result Bool → Result (Object × Bool)
  reference_set owner resource obj (err e) =
      with_context
        ("failed to determine owner reference eligibility for resource " ∷ resource.identity ∷ [])
        (err e)
  reference_set owner resource obj (ok false) = ok (obj, true)
  reference_set owner resource obj (ok true) = skipped_or (api.set_controller_reference owner obj)

  -- the part of `mutateResource` after `Mutate`; the flag tells that the reference was skipped
  unfoldable pub set_owner : Owner → Resource W → Bool → Object → Result (Object × Bool)
  set_owner owner resource skip_owner_ref obj =
      if skip_owner_ref
      then ok
          (record obj { owner_references = without_owner owner.uid obj.owner_references }, false)
      else reference_set owner resource obj (can_set_owner_reference owner obj)
