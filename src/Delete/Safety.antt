-- ===== src/Delete/Safety.antt =====
-- What a deletion sends to the cluster.
use operator_component_frame.Prelude.{
  String, ◌≡◌, refl, sym, Bool, true, false, not, ◌&&◌, Option, none, some, List, [], ◌∷◌, arith,
  inl, inr, ◌⊎◌,
}
use operator_component_frame.Condition.{Owner}
use operator_component_frame.Resource.{Object, ResourceOptions, ReconcileEntry}
use operator_component_frame.Cluster.{Api, State, Call}
use operator_component_frame.Cluster.Monad.{◌>>=◌, lift, wrapping, gets, record_call, when_true}
use operator_component_frame.Cluster.Sends.{
  IsSent, IsSent-trans, IsSent-nothing, IsSent-map, Sends, sends_rules, continue-Sends, if-Sends,
  if-IsSent, when_true-Sends, record_call-Sends,
}
use mathlib.Core.Path.{subst}
use operator_component_frame.Objects.{owned_by}
use operator_component_frame.Delete.{
  Observed, foreign, observed_as, observe_controller, send_delete, delete_bound, may_delete,
  delete_seen, delete_observed, delete_plainly, delete_checked, is_unchecked, delete_entry,
  delete_found, object_of, deletion_event, delete_one, delete_all,
}
use operator_component_frame.Delete.Observing.{
  IsObserved, AllObserved, observe_controller-Sends, observe_controller-seen,
}

-- Neither option of the entry forbids that the owner deletes the object.
pub record IsDeletable {W : Type 0} (api : Api W) (options : ResourceOptions) (owner : Owner)
    (o : Object) : Type 0 where
  pub controlled :
      options.block_on_foreign_controller ≡ true
      → foreign api owner (api.get_controller_of o) ≡ none
  pub owned : options.delete_only_if_owned ≡ true → owned_by o owner.uid ≡ true

no_option : (a b : Bool) → not a && not b ≡ true → (a ≡ false) × (b ≡ false)
no_option a b h = ground arith

module _ {W : Type 0} (api : Api W) where
  -- The deletes that an entry allows in a world: without conditions only where no option is set, else
  -- bound to the UID and the resource version of an object that was read there for the entry's
  -- resource and that passes the checks.
  abbrev pub IsDeleteCall : ReconcileEntry W → Owner → W → Call → Type 0
  IsDeleteCall entry owner w (Call.deleted o none) =
      (entry.options.block_on_foreign_controller ≡ false)
      × (entry.options.delete_only_if_owned ≡ false)
  IsDeleteCall entry owner w (Call.deleted o (some p)) =
      (p.uid ≡ o.uid)
      × (p.resource_version ≡ o.resource_version)
      × IsDeletable api entry.options owner o
      × IsObserved api entry.resource w o
  IsDeleteCall entry owner w _ = ⊥

  may_delete-IsDeletable :
      (options : ResourceOptions) (owner : Owner) (o : Object)
      → may_delete api options (foreign api owner (api.get_controller_of o)) o owner.uid ≡ true
      → IsDeletable api options owner o
  unfolding may_delete
  may_delete-IsDeletable options owner o h = record {
    controlled = λ e. (ground arith);
    owned = λ e. ground arith;
  }

  delete_bound-Sends :
      (entry : ReconcileEntry W) (owner : Owner) (w : W) (o : Object)
      → IsDeletable api entry.options owner o
      → IsObserved api entry.resource w o
      → Sends (IsDeleteCall entry owner w) (delete_bound api entry o)
  unfolding delete_bound send_delete
  delete_bound-Sends entry owner w o h k = search sends_rules depth 20

  delete_seen-Sends :
      (entry : ReconcileEntry W) (owner : Owner) (w : W) (live : Option Object)
      → AllObserved api entry.resource w live
      → Sends (IsDeleteCall entry owner w) (
          delete_seen api entry
            (observed_as api owner live).live
            (observed_as api owner live).controller
            owner)
  unfolding delete_seen observed_as
  delete_seen-Sends entry owner w none a = search sends_rules
  delete_seen-Sends entry owner w (some o) a =
      if-Sends _ _ _
        (λ h. delete_bound-Sends entry owner w o (may_delete-IsDeletable entry.options owner o h) a)
        (λ h. search sends_rules)

  delete_observed-IsSent :
      (entry : ReconcileEntry W) (s : State W) (t : State W) (seen : Observed)
      → t.owner ≡ s.owner
      → ((live : Option Object) × (observed_as api s.owner live ≡ seen)
          × AllObserved api entry.resource s.env live)
      → IsSent (IsDeleteCall entry s.owner s.env) t (delete_observed api entry seen t).1
  unfolding delete_observed ◌>>=◌ gets
  delete_observed-IsSent entry s t seen h (live, e, a) =
      subst
        (λ (x : Observed).
          IsSent (IsDeleteCall entry s.owner s.env) t
            (delete_seen api entry x.live x.controller t.owner t).1)
        e
        (subst
          (λ (o : Owner).
            IsSent (IsDeleteCall entry s.owner s.env) t
              (delete_seen api entry (observed_as api s.owner live).live
                (observed_as api s.owner live).controller o t).1)
          (sym h) ((delete_seen-Sends entry s.owner s.env live a).from t))

  delete_checked-IsSent :
      (entry : ReconcileEntry W) (s : State W)
      → IsSent (IsDeleteCall entry s.owner s.env) s (delete_checked api entry s).1
  unfolding delete_checked ◌>>=◌
  delete_checked-IsSent entry s =
      continue-Sends s (observe_controller api entry.resource s) (delete_observed api entry)
        ((observe_controller-Sends api entry.resource).from s)
        (λ seen e.
          delete_observed-IsSent entry s (observe_controller api entry.resource s).1 seen
            ((observe_controller-Sends api {P = λ c. ⊥} entry.resource).from s).same_owner
            (observe_controller-seen api entry.resource s seen e))

  delete_plainly-Sends :
      (entry : ReconcileEntry W) (owner : Owner) (w : W) (o : Object)
      → is_unchecked api entry.options ≡ true
      → Sends (IsDeleteCall entry owner w) (delete_plainly api entry o)
  unfolding delete_plainly send_delete
  delete_plainly-Sends entry owner w o h =
      let k =
        no_option entry.options.block_on_foreign_controller entry.options.delete_only_if_owned h in
      search sends_rules depth 20

  -- Deleting an entry sends nothing else than deletes that it allows in the world of the start.
  pub delete_entry-IsSent :
      (entry : ReconcileEntry W) (o : Object) (s : State W)
      → IsSent (IsDeleteCall entry s.owner s.env) s (delete_entry api entry o s).1
  unfolding delete_entry
  delete_entry-IsSent entry o s =
      if-IsSent (is_unchecked api entry.options) (delete_plainly api entry o)
        (delete_checked api entry) s s (λ h. (delete_plainly-Sends entry s.owner s.env o h).from s)
        (λ h. delete_checked-IsSent entry s)

  abbrev pub IsEvent : Call → Type 0
  IsEvent (Call.event a b c) = Unit
  IsEvent _ = ⊥

  -- What the deletion of entries may send: events, and in each round deletes that its entry allows
  -- in the world that the round starts in.
  abbrev pub IsDeletionCall : String → List (ReconcileEntry W) → Owner → State W → Call → Type 0
  IsDeletionCall reason [] owner s c = ⊥
  IsDeletionCall reason (entry ∷ entries) owner s c =
      (IsEvent c ⊎ IsDeleteCall entry owner s.env c)
      ⊎ IsDeletionCall reason entries owner (delete_one api reason entry s).1 c

  delete_found-IsSent :
      (reason : String) (entry : ReconcileEntry W) (o : Object) (s : State W)
      → IsSent
          (λ c. IsEvent c ⊎ IsDeleteCall entry s.owner s.env c)
          s
          (delete_found api reason entry o s).1
  unfolding delete_found ◌>>=◌
  delete_found-IsSent reason entry o s =
      continue-Sends s (delete_entry api entry o s)
        (λ deleted. when_true deleted (record_call (deletion_event api entry.resource reason)))
        (IsSent-map (IsDeleteCall entry s.owner s.env) _ s _ (λ c h. inr h)
          (delete_entry-IsSent entry o s))
        (λ deleted e.
          (when_true-Sends deleted _
              (λ k. record_call-Sends (deletion_event api entry.resource reason) (inl tt))).from
            _)

  delete_one-IsSent :
      (reason : String) (entry : ReconcileEntry W) (s : State W)
      → IsSent
          (λ c. IsEvent c ⊎ IsDeleteCall entry s.owner s.env c)
          s
          (delete_one api reason entry s).1
  unfolding delete_one object_of ◌>>=◌ gets wrapping lift
  delete_one-IsSent reason entry s =
      continue-Sends s (object_of api entry s) (delete_found api reason entry)
        (IsSent-nothing _ s s refl refl) (λ o e. delete_found-IsSent reason entry o s)

  -- Whatever fails on the way, deleting a list of entries sends nothing else than events and, in
  -- the round of an entry, deletes that this entry allows: an unconditional delete only where the
  -- entry asks for no check; any other with the UID and the resource version of the object that the
  -- checking reader returned, in the world that the round started in, for the key of the object of
  -- the entry's resource, and only of an object that no foreign owner controls, where the entry asks
  -- for that, and that the owner references, where it asks for that. The owner stays as it is.
  pub delete_all-IsSent :
      (reason : String) (entries : List (ReconcileEntry W)) (s : State W)
      → IsSent (IsDeletionCall reason entries s.owner s) s (delete_all api reason entries s).1
  unfolding delete_all
  delete_all-IsSent reason [] s = IsSent-nothing _ s s refl refl
  delete_all-IsSent reason (entry ∷ entries) s =
      let t = (delete_one api reason entry s).1 in
      let h = delete_one-IsSent reason entry s in
      IsSent-trans (IsDeletionCall reason (entry ∷ entries) s.owner s) s t _
        (IsSent-map _ _ s t (λ c k. inl k) h)
        (IsSent-map (IsDeletionCall reason entries s.owner t) _ t _ (λ c k. inr k)
          (subst
            (λ (owner : Owner).
              IsSent (IsDeletionCall reason entries owner t) t (delete_all api reason entries t).1)
            h.same_owner (delete_all-IsSent reason entries t)))
