-- ===== src/Orphan/Sent.antt =====
-- What `orphanResources` sends to the cluster.
use operator_component_frame.Prelude.{String, ◌≡◌, refl, false, Option, none, some, List, [], ◌∷◌}
use operator_component_frame.Resource.{Object, Resource}
use operator_component_frame.Cluster.{Api, State, Call}
use operator_component_frame.Cluster.Monad.{Action}
use operator_component_frame.Cluster.Sends.{
  IsSent, IsSent-trans, IsSent-nothing, Sends, sends_rules,
}
use operator_component_frame.Objects.{owned_by}
use operator_component_frame.Objects.Ownership.{released}
use operator_component_frame.Apply.Sent.{look-Sends}
use operator_component_frame.Orphan.{
  Retry, send_update, release, orphan_attempt, record_orphaned, orphan_one, orphan_all,
}

-- An update of an object that does not reference the owner, or an event.
abbrev pub IsOrphanCall : String → Call → Type 0
IsOrphanCall owner_uid (Call.updated o) = owned_by o owner_uid ≡ false
IsOrphanCall owner_uid (Call.event a b c) = Unit
IsOrphanCall owner_uid _ = ⊥

module _ {W : Type 0} (api : Api W) (owner_uid : String) where
  release-Sends :
      (live : Option Object) → Sends (IsOrphanCall owner_uid) (release api owner_uid live)
  unfolding release send_update owned_by
  release-Sends none = search sends_rules
  release-Sends (some live) =
      let h = released owner_uid live.owner_references in search sends_rules depth 20

  orphan_attempt-Sends :
      (o : Object) → Sends (IsOrphanCall owner_uid) (orphan_attempt api owner_uid o)
  unfolding orphan_attempt
  orphan_attempt-Sends o = search (sends_rules, look-Sends, release-Sends) depth 20

  record_orphaned-Sends :
      (r : Resource W) (orphaned : Option Object)
      → Sends (IsOrphanCall owner_uid) (record_orphaned api r orphaned)
  unfolding record_orphaned
  record_orphaned-Sends r none = search sends_rules
  record_orphaned-Sends r (some o) = search sends_rules

  module _ (retry : Retry W)
      (retry-Sends : (m : Action W (Option Object))
        → Sends (IsOrphanCall owner_uid) m
        → Sends (IsOrphanCall owner_uid) (retry m)) where
    orphan_one-Sends :
        (r : Resource W) → Sends (IsOrphanCall owner_uid) (orphan_one api retry owner_uid r)
    unfolding orphan_one
    orphan_one-Sends r =
        search (sends_rules, retry-Sends, orphan_attempt-Sends, record_orphaned-Sends) depth 20

    -- Where a retry sends nothing that its attempts do not send, orphaning sends only events and
    -- updates of objects that no longer reference the owner: it deletes nothing and applies
    -- nothing. The owner stays as it is.
    pub orphan_all-IsSent :
        (resources : List (Resource W)) (s : State W)
        → IsSent (IsOrphanCall owner_uid) s (orphan_all api retry owner_uid resources s).1
    unfolding orphan_all
    orphan_all-IsSent [] s = IsSent-nothing _ s s refl refl
    orphan_all-IsSent (r ∷ resources) s =
        let t = (orphan_one api retry owner_uid r s).1 in
        IsSent-trans (IsOrphanCall owner_uid) s t _ ((orphan_one-Sends r).from s)
          (orphan_all-IsSent resources t)
