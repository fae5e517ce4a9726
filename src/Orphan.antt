-- ===== src/Orphan.antt =====
-- pkg/component/orphan.go: `orphanResources`. `retry.RetryOnConflict` is a parameter.
pub mod Sent
use operator_component_frame.Prelude.{
  String, Bool, not, Option, none, some, List, [], ◌∷◌, Result, Error, concat, length, ◌==◌,
  if◌then◌else◌,
}
use operator_component_frame.Resource.{Object, Resource}
use operator_component_frame.Cluster.{Api, State, Call}
use operator_component_frame.Cluster.Monad.{
  Action, pure, ◌>>=◌, ◌>>◌, lift, wrapping, gets, outside_error, record_call,
}
use operator_component_frame.Objects.{without_owner}
use operator_component_frame.Apply.{look}
use operator_component_frame.Delete.{gathered, joined}

-- `retry.RetryOnConflict` with `retry.DefaultRetry`
abbrev pub Retry : Type 0 → Type 0
Retry W = Action W (Option Object) → Action W (Option Object)

abbrev pub orphaned_event : {W : Type 0} → Resource W → Call
orphaned_event resource =
    Call.event "ResourceOrphaned" "Orphan"
      (concat ("Resource " ∷ resource.identity ∷ " orphaned: owner reference removed" ∷ []))

module _ {W : Type 0} (api : Api W) where
  -- the write of an object that has lost its references to the owner
  unfoldable pub send_update : Object → Action W (Option Object)
  send_update obj = do
    record_call (Call.updated obj)
    outside_error (api.update obj)
    pure (some obj)

  -- one attempt on a live object: what was orphaned
  unfoldable pub release : String → Option Object → Action W (Option Object)
  release owner_uid none = pure none
  release owner_uid (some live) =
      let kept = without_owner owner_uid live.owner_references in
      if length kept == length live.owner_references
      then pure none
      else send_update (record live { owner_references = kept })

  -- one attempt of `RetryOnConflict`
  unfoldable pub orphan_attempt : String → Object → Action W (Option Object)
  orphan_attempt owner_uid obj = do live ← look api api.get obj; release owner_uid live

  unfoldable pub record_orphaned : Resource W → Option Object → Action W (Unit {0})
  record_orphaned resource none = pure tt
  record_orphaned resource (some obj) = record_call (orphaned_event resource)

  -- one round of `orphanResources`
  unfoldable pub orphan_one : Retry W → String → Resource W → Action W (Unit {0})
  orphan_one retry owner_uid resource = do
    w ← gets (λ s. s.env)
    obj ←
        wrapping
          ("failed to get resource " ∷ resource.identity ∷ "'s underlying object on orphan" ∷ [])
          (lift (resource.object w))
    orphaned ←
        wrapping ("failed to orphan resource " ∷ resource.identity ∷ [])
          (retry (orphan_attempt owner_uid obj))
    record_orphaned resource orphaned

  -- the loop of `orphanResources`
  unfoldable pub orphan_all : Retry W → String → List (Resource W) → State W → List Error × State W
  orphan_all retry owner_uid [] s = ([], s)
  orphan_all retry owner_uid (resource ∷ resources) s =
      let (r, s') = orphan_one retry owner_uid resource s in
      let (es, s'') = orphan_all retry owner_uid resources s' in (gathered r es, s'')

  -- `orphanResources`
  unfoldable pub orphan_resources : Retry W → List (Resource W) → Action W (Unit {0})
  orphan_resources retry resources s = joined (orphan_all retry s.owner.uid resources s)
