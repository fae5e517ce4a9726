-- ===== src/Suspend/Sent.antt =====
-- What the suspension of resources sends to the cluster.
use operator_component_frame.Prelude.{ℕ, String, ◌≡◌, sym, Option, none, some, Result, ok, err}
use mathlib.Core.Path.{subst}
use operator_component_frame.Status.{StatusWithReason}
use operator_component_frame.Condition.{Owner}
use operator_component_frame.Resource.{Object, OwnerReference, ReconcileEntry, Suspendable}
use operator_component_frame.Cluster.{Api, Call}
use operator_component_frame.Cluster.Sends.{
  IsSent, IsSent-map, Sends, sends_rules, bind-Sends, SendsFor, Sends-SendsFor, owner-SendsFor,
  owner_rules,
}
use operator_component_frame.Apply.Sent.{
  look-Sends, IsApplyCall, IsClean, apply_resource-Sends, extract_resource_data-Sends,
}
use operator_component_frame.Delete.Observing.{observe_controller-Sends}
use operator_component_frame.Delete.Safety.{IsDeleteCall, delete_entry-IsSent}
use operator_component_frame.Objects.{apply_field_owner}
use operator_component_frame.Delete.{delete_entry}
use operator_component_frame.Pipeline.{apply_entry}
use operator_component_frame.Suspend.{
  Presence, suspension_controller, find_presence, check_presence, delete_suspended, after_status,
  after_suspension_apply, suspend_present, suspend_controlled, suspend_resource,
}

module _ {W : Type 0} {P : Call → Type 0} (api : Api W) where
  suspension_controller-Sends :
      (entry : ReconcileEntry W) → Sends P (suspension_controller api entry)
  unfolding suspension_controller
  suspension_controller-Sends entry = search (sends_rules, observe_controller-Sends) depth 20

  find_presence-Sends :
      (entry : ReconcileEntry W) (o : Object) → Sends P (find_presence api entry o)
  unfolding find_presence
  find_presence-Sends entry o = search (sends_rules, look-Sends) depth 20

  check_presence-Sends :
      (entry : ReconcileEntry W) (suspendable : Suspendable W) (o : Object)
      → Sends P (check_presence api entry suspendable o)
  unfolding check_presence
  check_presence-Sends entry suspendable o = search (sends_rules, find_presence-Sends) depth 20

-- What a suspension may send for an entry: the request to suspend, events, metrics, patches of clean
-- objects by the field owner, and deletes that the entry allows in
-- some world.
module _ {W : Type 0} (api : Api W) where
  abbrev pub IsSuspensionCall : String → ReconcileEntry W → Owner → Call → Type 0
  IsSuspensionCall field_owner entry owner (Call.patched f o) =
      (f ≡ field_owner) × IsClean o.resource_version o
  IsSuspensionCall field_owner entry owner (Call.updated o) = ⊥
  IsSuspensionCall field_owner entry owner (Call.deleted o p) =
      (w : W) × IsDeleteCall api entry owner w (Call.deleted o p)
  IsSuspensionCall field_owner entry owner _ = Unit

  of_apply :
      (field_owner v : String) (entry : ReconcileEntry W) (owner : Owner) (c : Call)
      → IsApplyCall field_owner v c
      → IsSuspensionCall field_owner entry owner c
  of_apply field_owner v entry owner (Call.patched f o) h =
      (h.0, subst (λ (x : String). IsClean x o) (sym h.1.version) h.1)
  of_apply field_owner v entry owner (Call.event a b c) h = tt
  of_apply field_owner v entry owner (Call.apply_metric l op) h = tt
  of_apply field_owner v entry owner (Call.apply_error_metric l) h = tt
  of_apply field_owner v entry owner (Call.suspend_asked x) h = tt
  of_apply field_owner v entry owner (Call.updated o) h = elim h [ ]
  of_apply field_owner v entry owner (Call.deleted o p) h = elim h [ ]

  of_delete :
      (field_owner : String) (entry : ReconcileEntry W) (owner : Owner) (w : W) (c : Call)
      → IsDeleteCall api entry owner w c
      → IsSuspensionCall field_owner entry owner c
  of_delete field_owner entry owner w (Call.deleted o none) h = (w, h)
  of_delete field_owner entry owner w (Call.deleted o (some p)) h = (w, h)
  of_delete field_owner entry owner w (Call.patched f o) h = elim h [ ]
  of_delete field_owner entry owner w (Call.updated o) h = elim h [ ]
  of_delete field_owner entry owner w (Call.event a b c) h = tt
  of_delete field_owner entry owner w (Call.apply_metric l op) h = tt
  of_delete field_owner entry owner w (Call.apply_error_metric l) h = tt
  of_delete field_owner entry owner w (Call.suspend_asked x) h = tt

module _ {W : Type 0} (api : Api W) (len : String → ℕ) (component_name : String) (owner : Owner)
    (entry : ReconcileEntry W) where
  abbrev Allowed : Call → Type 0
  Allowed c = IsSuspensionCall api (apply_field_owner api len owner component_name) entry owner c

  apply_entry-SendsFor :
      (v : String) → SendsFor owner Allowed (apply_entry api len component_name v entry)
  unfolding apply_entry
  apply_entry-SendsFor v = owner-SendsFor _ (
      Sends-SendsFor _ (
        bind-Sends _ _
          (record {
            from = λ s. IsSent-map _ _ s _ (of_apply api _ v entry owner) (
                (apply_resource-Sends api entry.resource component_name
                    (apply_field_owner api len owner component_name) entry.options.unowned v).from
                  s);
          })
          (λ r. extract_resource_data-Sends entry.resource)))

  delete_entry-SendsFor : (o : Object) → SendsFor owner Allowed (delete_entry api entry o)
  delete_entry-SendsFor o = record {
    from = λ s e. IsSent-map _ _ s _ (of_delete api _ entry owner s.env) (
        subst
          (λ (x : Owner). IsSent (IsDeleteCall api entry x s.env) s (delete_entry api entry o s).1)
          e (delete_entry-IsSent api entry o s));
  }

  delete_suspended-SendsFor :
      (o : Object) (r : StatusWithReason) → SendsFor owner Allowed (delete_suspended api entry o r)
  unfolding delete_suspended
  delete_suspended-SendsFor o r = search (owner_rules, delete_entry-SendsFor, sends_rules) depth 20

  after_status-SendsFor :
      (suspendable : Suspendable W) (o : Object) (r : StatusWithReason)
      → SendsFor owner Allowed (after_status api entry suspendable o r)
  unfolding after_status
  after_status-SendsFor suspendable o r =
      search (owner_rules, delete_suspended-SendsFor, sends_rules) depth 20

  after_suspension_apply-SendsFor :
      (suspendable : Suspendable W) (o : Object) (r : Result (Unit {0}))
      → SendsFor owner Allowed (after_suspension_apply api entry suspendable o r)
  unfolding after_suspension_apply
  after_suspension_apply-SendsFor suspendable o (err e) = search (owner_rules, sends_rules) depth 20
  after_suspension_apply-SendsFor suspendable o (ok u) =
      search (owner_rules, after_status-SendsFor, sends_rules) depth 20

  suspend_present-SendsFor :
      (suspendable : Suspendable W) (o : Object) (p : Presence)
      → SendsFor owner Allowed (suspend_present api len component_name entry suspendable o p)
  unfolding suspend_present
  suspend_present-SendsFor suspendable o (Presence.settled r) =
      search (owner_rules, sends_rules) depth 20
  suspend_present-SendsFor suspendable o (Presence.present v) =
      search (owner_rules, apply_entry-SendsFor, after_suspension_apply-SendsFor, sends_rules) depth
        20

  suspend_controlled-SendsFor :
      (suspendable : Suspendable W) (o : Object) (r : Option OwnerReference)
      → SendsFor owner Allowed (suspend_controlled api len component_name entry suspendable o r)
  unfolding suspend_controlled
  suspend_controlled-SendsFor suspendable o (some r) = search (owner_rules, sends_rules) depth 20
  suspend_controlled-SendsFor suspendable o none =
      search (owner_rules, suspend_present-SendsFor, check_presence-Sends, sends_rules) depth 20

  -- Suspending a resource sends nothing but the request to suspend it, events and metrics, patches
  -- by the component's field owner of objects without the fields that the server fills in, and
  -- deletes that its entry allows in some world: where the entry asks for checks, only deletes bound
  -- to the UID and the resource version of an object that the checking reader returns there for the
  -- key of the resource's object, which no foreign owner controls, and which the owner references,
  -- as far as the entry asks for that.
  pub suspend_resource-SendsFor :
      (suspendable : Suspendable W)
      → SendsFor owner Allowed (suspend_resource api len component_name entry suspendable)
  unfolding suspend_resource
  suspend_resource-SendsFor suspendable =
      search (owner_rules, suspend_controlled-SendsFor, suspension_controller-Sends, sends_rules)
        depth 20
