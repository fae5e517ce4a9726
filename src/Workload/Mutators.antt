-- ===== src/Workload/Mutators.antt =====
-- The planning mutator that every workload has: a plan for each feature, applied in their order.
use operator_component_frame.Prelude.{◌≡◌, List, [], ◌∷◌, ◌++◌, map, Result, ok}
use operator_component_frame.Prelude.Results.{◌>>=◌, Edit, run_edits}

-- A kind of workload: its objects `O`, its plans `P`, and how `Apply` applies one plan. A plan in which
-- nothing is registered changes nothing.
pub record Kind (O P : Type 0) : Type 0 where
  pub no_plan : P
  pub apply_plan : P → Edit O
  pub apply_plan-no_plan : (o : O) → apply_plan no_plan o ≡ ok o

-- `Mutator`; its plans are those before the active one, and the active one, which is the last
pub record Mutator (O P : Type 0) : Type 0 where
  pub current : O
  pub finished : List P
  pub active : P

-- a registration, which changes the active plan
unfoldable pub planned : {O P : Type 0} → (P → P) → Mutator O P → Mutator O P
planned f m = record m { active = f m.active }

module _ {O P : Type 0} (kind : Kind O P) where
  open kind use {no_plan, apply_plan}

  -- `NewMutator`: one plan, which is active
  unfoldable pub new_mutator : O → Mutator O P
  new_mutator current = record { current = current; finished = []; active = no_plan }

  -- `NextFeature`
  unfoldable pub next_feature : Mutator O P → Mutator O P
  next_feature m = record m { finished = m.finished ++ (m.active ∷ []); active = no_plan }

  -- the loop of `Apply` over plans
  unfoldable pub apply_plans : List P → Edit O
  unfolding run_edits
  apply_plans plans = run_edits (map apply_plan plans)

  -- `Apply`; the plans stay registered
  unfoldable pub apply : Mutator O P → Result (Mutator O P)
  unfolding apply_plans
  apply m =
      apply_plans (m.finished ++ (m.active ∷ [])) m.current >>= λ o. ok (record m { current = o })
