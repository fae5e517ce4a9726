-- ===== src/Component/Flush.antt =====
-- pkg/component/component.go: `FlushStatus`, which writes the conditions of the owner to the cluster.
use operator_component_frame.Prelude.{Bool, List, [], ◌∷◌, Result, ok, err, wrap, if◌then◌else◌}
use operator_component_frame.Condition.{Condition, Owner}
use operator_component_frame.Cluster.{State}

-- What `FlushStatus` calls: the update of the owner's status, which gives the owner back as the server
-- has stored it, and the metric of a condition.
pub record FlushApi (W : Type 0) : Type 0 where
  pub update_status : Owner → W → Result Owner × W
  pub has_metrics : Bool
  pub record_condition_for : Owner → Condition → W → W

module _ {W : Type 0} (api : FlushApi W) where
  -- the loop over the conditions of the owner
  unfoldable pub record_conditions : Owner → List Condition → W → W
  record_conditions owner [] w = w
  record_conditions owner (c ∷ cs) w =
      record_conditions owner cs (api.record_condition_for owner c w)

  -- the end of `FlushStatus`, after the update
  unfoldable pub after_update : State W → Result Owner × W → Result (Unit {0}) × State W
  unfolding record_conditions
  after_update s (err e, w) = (
    err (
        wrap
          ("updating status of " ∷ s.owner.kind ∷ " " ∷ s.owner.namespace ∷ "/" ∷ s.owner.name ∷ [])
          e),
    record s { env = w },
  )
  after_update s (ok owner, w) = (
    ok tt,
    record s {
      owner = owner;
      env = if api.has_metrics then record_conditions owner owner.conditions w else w;
    },
  )

  -- `FlushStatus`
  unfoldable pub flush_status : State W → Result (Unit {0}) × State W
  unfolding after_update
  flush_status s = after_update s (api.update_status s.owner s.env)
