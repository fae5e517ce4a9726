-- ===== src/Suspend.antt =====
-- pkg/component/suspend.go: the suspension of a component's resources.
pub mod Sent
pub mod Summary
use operator_component_frame.Prelude.{
  ℕ, String, Bool, true, false, not, ◌&&◌, ◌||◌, Option, none, some, List, [], ◌∷◌, ◌++◌, Result,
  ok, err, Error, wrap, concat, join, join_errors, is_conflict, ltb, ◌==◌, str_eq, is_some,
  if◌then◌else◌,
}
use operator_component_frame.Status.{
  Status, StatusWithReason, suspension_priority, is_suspended, is_blank,
}
use operator_component_frame.Condition.{Owner}
use operator_component_frame.Resource.{
  Object, OwnerReference, Resource, ResourceOptions, ReconcileEntry, Suspendable,
}
use operator_component_frame.Cluster.{Api, State, Call}
use operator_component_frame.Cluster.Monad.{
  Action, pure, fail_with, ◌>>=◌, ◌>>◌, attempt, lift, wrapping, gets, outside_error, record_call,
  when_true,
}
use operator_component_frame.Objects.{owned_by, foreign_controller_reason}
use operator_component_frame.Apply.{look, addressed}
use operator_component_frame.Delete.{observe_controller, Observed, delete_entry, gathered}
use operator_component_frame.Pipeline.{apply_entry}

-- the variables of the loop of `suspensionResults.summary`
pub record SuspensionTally : Type 0 where
  pub max : Status
  pub reasons : List String

-- one round of that loop
unfoldable pub tally_suspension : SuspensionTally → StatusWithReason → SuspensionTally
tally_suspension t r =
    if ltb (suspension_priority t.max) (suspension_priority r.status)
    then record { max = r.status; reasons = r.reason ∷ [] }
    else (if (suspension_priority r.status == suspension_priority t.max) && not (str_eq r.reason "")
        then record { max = t.max; reasons = t.reasons ++ (r.reason ∷ []) }
        else t)

unfoldable pub tally_suspensions : SuspensionTally → List StatusWithReason → SuspensionTally
tally_suspensions t [] = t
tally_suspensions t (r ∷ rs) = tally_suspensions (tally_suspension t r) rs

-- the end of `suspensionResults.summary`
unfoldable pub suspension_verdict : SuspensionTally → StatusWithReason
suspension_verdict t =
    if is_blank t.max || is_suspended t.max
    then record { status = Status.suspended; reason = "All resources are suspended." }
    else record { status = t.max; reason = join "; " t.reasons }

-- `suspensionResults.summary`
unfoldable pub suspension_summary : List StatusWithReason → StatusWithReason
suspension_summary rs =
    suspension_verdict (tally_suspensions (record { max = Status.blank; reasons = [] }) rs)

-- What the check before a suspension finds: nothing to suspend, or an object to suspend, applied
-- with a resource version.
pub data Presence : Type 0 where
  settled : StatusWithReason → Presence
  present : (resource_version : String) → Presence

abbrev pub suspended_for : List String → StatusWithReason
suspended_for reason = record { status = Status.suspended; reason = concat reason }

-- what `suspendResource` concludes from the live object of a resource that is deleted on suspension
unfoldable pub presence_of : ResourceOptions → String → Owner → Option Object → Presence
presence_of options identity owner none =
    Presence.settled (suspended_for ("Resource " ∷ identity ∷ " already deleted." ∷ []))
presence_of options identity owner (some live) =
    if options.delete_only_if_owned
    then (if owned_by live owner.uid
        then Presence.present live.resource_version
        else Presence.settled (
            suspended_for
              ("Resource " ∷ identity ∷ " does not reference the owner; nothing to suspend." ∷ [])))
    else Presence.present ""

abbrev pub deleted_on_suspension : {W : Type 0} → Resource W → Call
deleted_on_suspension resource =
    Call.event "ResourceDeleted" "Delete"
      (concat ("Resource " ∷ resource.identity ∷ " deleted on suspension" ∷ []))

module _ {W : Type 0} (api : Api W) where
  -- the reader of the existence check
  abbrev suspension_reader : ResourceOptions → Object → W → Result Object × W
  suspension_reader options =
      if options.delete_only_if_owned
      then elim api.api_get [ none ↦ api.get | some read ↦ read ]
      else api.get

  -- the owner that controls the resource, where the options ask for the check
  unfoldable pub suspension_controller : ReconcileEntry W → Action W (Option OwnerReference)
  suspension_controller entry =
      if entry.options.block_on_foreign_controller
      then (do seen ← observe_controller api entry.resource; pure seen.controller)
      else pure none

  -- the existence check of a resource that is deleted on suspension
  unfoldable pub find_presence : ReconcileEntry W → Object → Action W Presence
  find_presence entry obj = do
    empty ←
        wrapping
          ("failed to prepare existence check for resource " ∷ entry.resource.identity
            ∷ " on suspension" ∷ [])
          (lift (api.empty_object_like obj))
    live ←
        wrapping
          ("failed to check existence of resource " ∷ entry.resource.identity ∷ " on suspension"
            ∷ [])
          (look api (suspension_reader entry.options) (addressed api obj empty))
    owner ← gets (λ s. s.owner)
    pure (presence_of entry.options entry.resource.identity owner live)

  unfoldable pub check_presence : ReconcileEntry W → Suspendable W → Object → Action W Presence
  check_presence entry suspendable obj = do
    w ← gets (λ s. s.env)
    if suspendable.delete_on_suspend w then find_presence entry obj else pure (Presence.present "")

  -- the delete of a resource that is suspended
  unfoldable pub delete_suspended :
      ReconcileEntry W → Object → StatusWithReason → Action W StatusWithReason
  delete_suspended entry obj suspension = do
    deleted ← delete_entry api entry obj
    when_true deleted (record_call (deleted_on_suspension entry.resource))
    pure suspension

  -- the end of `suspendResource`, from the suspension status on
  unfoldable pub after_status :
      ReconcileEntry W → Suspendable W → Object → StatusWithReason → Action W StatusWithReason
  after_status entry suspendable obj suspension = do
    w ← gets (λ s. s.env)
    (if is_suspended suspension.status && suspendable.delete_on_suspend w
        then delete_suspended entry obj suspension
        else pure suspension)

  -- `suspendResource` after the apply, told how that ended
  unfoldable pub after_suspension_apply :
      ReconcileEntry W → Suspendable W → Object → Result (Unit {0}) → Action W StatusWithReason
  after_suspension_apply entry suspendable obj (err e) =
      if entry.options.delete_only_if_owned && is_conflict e
      then pure (record {
        status = Status.suspending;
        reason = concat (
            "Resource " ∷ entry.resource.identity
            ∷ " changed after it was read; suspension retries." ∷ []);
      })
      else fail_with (
          wrap
            ("failed to create or update resource " ∷ entry.resource.identity ∷ " on suspension"
              ∷ [])
            e)
  after_suspension_apply entry suspendable obj (ok u) = do
    w ← gets (λ s. s.env)
    suspension ←
        wrapping
          ("failed to retrieve suspension status for resource " ∷ entry.resource.identity ∷ [])
          (lift (suspendable.suspension_status w))
    after_status entry suspendable obj suspension

  -- `suspendResource` from `Suspend` on
  unfoldable pub suspend_present :
      (String → ℕ)
      → String
      → ReconcileEntry W
      → Suspendable W
      → Object
      → Presence
      → Action W StatusWithReason
  suspend_present len component_name entry suspendable obj (Presence.settled s) = pure s
  suspend_present len component_name entry suspendable obj (Presence.present resource_version) = do
    record_call (Call.suspend_asked entry.resource.identity)
    wrapping ("failed to suspend resource" ∷ []) (outside_error suspendable.suspend)
    applied ← attempt (apply_entry api len component_name resource_version entry)
    after_suspension_apply entry suspendable obj applied

  -- `suspendResource` after the check of the controller
  unfoldable pub suspend_controlled :
      (String → ℕ)
      → String
      → ReconcileEntry W
      → Suspendable W
      → Object
      → Option OwnerReference
      → Action W StatusWithReason
  suspend_controlled len component_name entry suspendable obj (some controller) = pure (
      suspended_for (
        "Resource "
        ∷ entry.resource.identity
        ∷ " is "
        ∷ foreign_controller_reason controller
        ∷ "; nothing to suspend."
        ∷ []))
  suspend_controlled len component_name entry suspendable obj none = do
    presence ← check_presence entry suspendable obj
    suspend_present len component_name entry suspendable obj presence

  -- `suspendResource`
  unfoldable pub suspend_resource :
      (String → ℕ) → String → ReconcileEntry W → Suspendable W → Action W StatusWithReason
  suspend_resource len component_name entry suspendable = do
    w ← gets (λ s. s.env)
    obj ← wrapping ("failed to get object on suspension" ∷ []) (lift (entry.resource.object w))
    controller ← suspension_controller entry
    suspend_controlled len component_name entry suspendable obj controller

  abbrev pub noted : Result StatusWithReason → List StatusWithReason → List StatusWithReason
  noted (ok s) rs = s ∷ rs
  noted (err e) rs = rs

  abbrev pub Suspended : Type 0
  Suspended = (List StatusWithReason × List Error) × State W

  -- one round of the loop of `suspendResources`, and then the rest
  unfoldable pub suspend_round :
      (String → ℕ)
      → String
      → ReconcileEntry W
      → Option (Suspendable W)
      → (State W → Suspended)
      → State W
      → Suspended
  suspend_round len component_name entry none rest s = rest s
  suspend_round len component_name entry (some suspendable) rest s =
      let (r, s') = suspend_resource len component_name entry suspendable s in
      let (out, s'') = rest s' in ((noted r out.0, gathered r out.1), s'')

  -- the loop of `suspendResources`: a resource that cannot be suspended is passed over
  unfoldable pub suspend_all : (String → ℕ) → String → List (ReconcileEntry W) → State W → Suspended
  suspend_all len component_name [] s = (([], []), s)
  suspend_all len component_name (entry ∷ entries) s =
      suspend_round len component_name entry entry.resource.suspendable
        (suspend_all len component_name entries) s

  abbrev all_or_errors :
      (List StatusWithReason × List Error) × State W → Result (List StatusWithReason) × State W
  all_or_errors ((rs, es), s) = (elim (join_errors es) [ none ↦ ok rs | some e ↦ err e ], s)

  -- `suspendResources`
  unfoldable pub suspend_resources :
      (String → ℕ) → String → List (ReconcileEntry W) → Action W (List StatusWithReason)
  suspend_resources len component_name entries s =
      all_or_errors (suspend_all len component_name entries s)
