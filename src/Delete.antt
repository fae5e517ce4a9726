-- ===== src/Delete.antt =====
-- pkg/component/delete.go, and the controller check of pkg/component/create.go.
pub mod Safety
pub mod Observing
pub mod Parts
use operator_component_frame.Prelude.{
  String, Bool, true, false, not, ◌&&◌, Option, none, some, List, [], ◌∷◌, Result, ok, err, Error,
  concat, is_not_found, is_conflict, str_eq, is_some, if◌then◌else◌, wrap, join_errors,
}
use operator_component_frame.Condition.{Owner}
use operator_component_frame.Resource.{
  Object, OwnerReference, Resource, ResourceOptions, ReconcileEntry,
}
use operator_component_frame.Cluster.{Api, State, Call, Preconditions}
use operator_component_frame.Cluster.Monad.{
  Action, pure, ◌>>=◌, ◌>>◌, attempt, lift, wrapping, gets, outside_error, record_call, when_true,
}
use operator_component_frame.Objects.{owned_by}
use operator_component_frame.Apply.{look, addressed}

-- an optional live object, with the reference of the foreign owner that controls it
pub record Observed : Type 0 where
  pub live : Option Object
  pub controller : Option OwnerReference

-- the error of a round, put in front of those of the later rounds
abbrev pub gathered : {A : Type 0} → Result A → List Error → List Error
gathered (ok a) es = es
gathered (err e) es = e ∷ es

module _ {W : Type 0} where
  -- `errors.Join` as the outcome of a loop
  abbrev pub joined : List Error × State W → Result (Unit {0}) × State W
  joined (es, s) = (elim (join_errors es) [ none ↦ ok tt | some e ↦ err e ], s)

module _ {W : Type 0} (api : Api W) where
  -- the reader of the checks: the API reader when there is one
  abbrev pub checking_reader : Object → W → Result Object × W
  checking_reader = elim api.api_get [ none ↦ api.get | some read ↦ read ]

  abbrev pub foreign : Owner → Option OwnerReference → Option OwnerReference
  foreign owner none = none
  foreign owner (some ref) = if str_eq ref.uid owner.uid then none else some ref

  -- what `observeController` concludes from the live object
  unfoldable pub observed_as : Owner → Option Object → Observed
  observed_as owner none = record { live = none; controller = none }
  observed_as owner (some live) = record {
    live = some live;
    controller = foreign owner (api.get_controller_of live);
  }

  -- the lookup of `observeController`
  unfoldable pub find_live : Resource W → Action W (Option Object)
  find_live resource = do
    w ← gets (λ s. s.env)
    obj ←
        wrapping ("failed to retrieve object for resource " ∷ resource.identity ∷ [])
          (lift (resource.object w))
    empty ←
        wrapping ("failed to prepare controller check for resource " ∷ resource.identity ∷ [])
          (lift (api.empty_object_like obj))
    wrapping ("failed to read resource " ∷ resource.identity ∷ " for controller check" ∷ [])
        (look api checking_reader (addressed api obj empty))

  -- `observeController`
  unfoldable pub observe_controller : Resource W → Action W Observed
  observe_controller resource = do
    live ← find_live resource
    owner ← gets (λ s. s.owner)
    pure (observed_as owner live)

  -- a delete of the client, with its outcome
  unfoldable pub send_delete : Object → Option Preconditions → Action W (Result (Unit {0}))
  send_delete obj conditions = do
    record_call (Call.deleted obj conditions)
    attempt (outside_error (api.delete obj conditions))

  -- the answer of an unconditional delete
  unfoldable pub plain_outcome : String → Result (Unit {0}) → Result Bool
  plain_outcome identity (ok u) = ok true
  plain_outcome identity (err e) =
      if is_not_found e
      then ok false
      else err (wrap ("failed to delete resource " ∷ identity ∷ []) e)

  -- the answer of a delete that is bound to what was observed
  unfoldable pub bound_outcome : String → ResourceOptions → Result (Unit {0}) → Result Bool
  bound_outcome identity options (ok u) = ok true
  bound_outcome identity options (err e) =
      if is_not_found e
      then ok false
      else (if options.delete_only_if_owned && is_conflict e
          then ok false
          else err (wrap ("failed to delete resource " ∷ identity ∷ " as observed" ∷ []) e))

  -- the delete of a live object that the checks let through
  unfoldable pub delete_bound : ReconcileEntry W → Object → Action W Bool
  delete_bound entry live = do
    outcome ←
        send_delete live
          (some (record { uid = live.uid; resource_version = live.resource_version }))
    lift (bound_outcome entry.resource.identity entry.options outcome)

  -- the checks of `deleteEntry` on a live object, for the owner with the UID
  unfoldable pub may_delete : ResourceOptions → Option OwnerReference → Object → String → Bool
  may_delete options controller live owner_uid =
      not (options.block_on_foreign_controller && is_some controller)
      && not (options.delete_only_if_owned && not (owned_by live owner_uid))

  unfoldable pub delete_seen :
      ReconcileEntry W → Option Object → Option OwnerReference → Owner → Action W Bool
  delete_seen entry none controller owner = pure false
  delete_seen entry (some live) controller owner =
      if may_delete entry.options controller live owner.uid
      then delete_bound entry live
      else pure false

  -- `deleteEntry` after the observation
  unfoldable pub delete_observed : ReconcileEntry W → Observed → Action W Bool
  delete_observed entry seen = do
    owner ← gets (λ s. s.owner)
    delete_seen entry seen.live seen.controller owner

  -- `deleteEntry` without a check
  unfoldable pub delete_plainly : ReconcileEntry W → Object → Action W Bool
  delete_plainly entry obj = do
    outcome ← send_delete obj none
    lift (plain_outcome entry.resource.identity outcome)

  -- `deleteEntry` with a check
  unfoldable pub delete_checked : ReconcileEntry W → Action W Bool
  delete_checked entry = do seen ← observe_controller entry.resource; delete_observed entry seen

  abbrev pub is_unchecked : ResourceOptions → Bool
  is_unchecked options = not options.block_on_foreign_controller && not options.delete_only_if_owned

  -- `deleteEntry`
  unfoldable pub delete_entry : ReconcileEntry W → Object → Action W Bool
  delete_entry entry obj =
      if is_unchecked entry.options then delete_plainly entry obj else delete_checked entry

  abbrev pub deletion_event : Resource W → String → Call
  deletion_event resource reason =
      Call.event "ResourceDeleted" "Delete"
        (concat ("Resource " ∷ resource.identity ∷ " deleted due to " ∷ reason ∷ []))

  -- one round of `deleteResources`, on the object
  unfoldable pub delete_found : String → ReconcileEntry W → Object → Action W (Unit {0})
  delete_found reason entry obj = do
    deleted ← delete_entry entry obj
    when_true deleted (record_call (deletion_event entry.resource reason))

  -- the object of an entry, from its resource
  unfoldable pub object_of : ReconcileEntry W → Action W Object
  object_of entry = do
    w ← gets (λ s. s.env)
    wrapping
        ("failed to get resource " ∷ entry.resource.identity ∷ "'s underlying object on deletion"
          ∷ [])
        (lift (entry.resource.object w))

  -- one round of `deleteResources`
  unfoldable pub delete_one : String → ReconcileEntry W → Action W (Unit {0})
  delete_one reason entry = do obj ← object_of entry; delete_found reason entry obj

  -- the loop of `deleteResources`, with the errors in their order
  unfoldable pub delete_all : String → List (ReconcileEntry W) → State W → List Error × State W
  delete_all reason [] s = ([], s)
  delete_all reason (entry ∷ entries) s =
      let (r, s') = delete_one reason entry s in
      let (es, s'') = delete_all reason entries s' in (gathered r es, s'')

  -- `deleteResources`
  unfoldable pub delete_resources : String → List (ReconcileEntry W) → Action W (Unit {0})
  delete_resources reason entries s = joined (delete_all reason entries s)
