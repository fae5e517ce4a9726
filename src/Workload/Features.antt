-- ===== src/Workload/Features.antt =====
-- What running the mutations of a workload amounts to: its features, one after the other.
use operator_component_frame.Prelude.{
  String, ◌≡◌, refl, sym, ap, ◌∙◌, Bool, true, false, none, some, List, [], ◌∷◌, ◌++◌, map, Result,
  ok, err, if◌then◌else◌, Bool-cases, inl, inr,
}
use mathlib.Core.List.{append-nil, append_assoc}
use operator_component_frame.Prelude.Results.{
  ◌>>=◌, Edit, run_edits, bind_assoc, bind_returns, bind_cong, with_context,
}
use operator_component_frame.Feature.{Mutation, apply_intent, run_mutate}
use operator_component_frame.Generic.Mutations.{
  FeatureMutator, apply_intents, apply_features, apply_suspension, apply_mutations,
}
use operator_component_frame.Workload.Mutators.{
  Kind, Mutator, planned, new_mutator, next_feature, apply_plans, apply,
}

-- What a feature registers, behind a gate that answers.
pub record Registration (P : Type 0) : Type 0 where
  pub name : String
  pub enabled : Bool
  pub register : P → P

module _ {O P : Type 0} where
  -- a registration as the mutation of a mutator
  abbrev pub mutation_of : Registration P → Mutation (Mutator O P)
  mutation_of r = record {
    name = r.name;
    feature = some (ok r.enabled);
    mutate = some (λ m. ok (planned r.register m));
  }

  -- `FeatureMutator` of a kind of workload
  unfoldable pub feature_mutator : Kind O P → FeatureMutator O (Mutator O P)
  unfolding new_mutator next_feature apply
  feature_mutator kind = record {
    new_mutator = new_mutator kind;
    next_feature = next_feature kind;
    apply = apply kind;
    current = λ m. m.current;
  }

module _ {O P : Type 0} (kind : Kind O P) where
  open kind use {no_plan, apply_plan}

  -- one feature on an object
  abbrev pub apply_feature : Registration P → Edit O
  apply_feature r o = if r.enabled then apply_plan (r.register no_plan) o else ok o

  -- the features on an object, each on what the one before has left
  unfoldable pub apply_in_order : List (Registration P) → Edit O
  apply_in_order [] o = ok o
  apply_in_order (r ∷ rs) o = apply_feature r o >>= apply_in_order rs

  -- the plan that a mutator has for a feature
  abbrev plan_of : Registration P → P
  plan_of r = if r.enabled then r.register no_plan else no_plan

  planning : O → List P → P → Mutator O P
  planning o ps p = record { current = o; finished = ps; active = p }

  step :
      (n : String) (on : Bool) (f : P → P) (o : O) (ps : List P) (rest : List (Registration P))
      → let r : Registration P = record { name = n; enabled = on; register = f } in
        apply_intents
          (feature_mutator kind)
          (mutation_of r ∷ map mutation_of rest)
          (planning o ps no_plan)
        ≡ apply_intents
            (feature_mutator kind)
            (map mutation_of rest)
            (planning o (ps ++ (plan_of r ∷ [])) no_plan)
  unfolding apply_intents planning feature_mutator apply_intent run_mutate planned next_feature
  step n true f o ps rest = refl
  step n false f o ps rest = refl

  -- The mutations only plan: one plan for each, and an empty active plan.
  apply_intents-plans :
      (rs : List (Registration P)) (o : O) (ps : List P)
      → apply_intents (feature_mutator kind) (map mutation_of rs) (planning o ps no_plan)
        ≡ ok (planning o (ps ++ map plan_of rs) no_plan)
  unfolding apply_intents
  apply_intents-plans [] o ps = ap (λ l. ok (planning o l no_plan)) (sym (append-nil ps))
  apply_intents-plans (r ∷ rs) o ps =
      step r.name r.enabled r.register o ps rs
      ∙ apply_intents-plans rs o (ps ++ (plan_of r ∷ []))
      ∙ ap (λ l. ok (planning o l no_plan)) (append_assoc ps (plan_of r ∷ []) (map plan_of rs))

  -- Applying a plan is applying its feature.
  plan-feature : (r : Registration P) (o : O) → apply_plan (plan_of r) o ≡ apply_feature r o
  plan-feature r o = elim (Bool-cases r.enabled) [
    | inl e ↦ rw e refl
    | inr e ↦ rw e (kind.apply_plan-no_plan o)
  ]

  plans-features :
      (rs : List (Registration P)) (p : P) (o : O)
      → apply_plans kind (map plan_of rs ++ (p ∷ [])) o ≡ (apply_in_order rs o >>= apply_plan p)
  unfolding apply_plans run_edits apply_in_order
  plans-features [] p o = bind_returns (apply_plan p o)
  plans-features (r ∷ rs) p o =
      ap (λ x. x >>= apply_plans kind (map plan_of rs ++ (p ∷ []))) (plan-feature r o)
      ∙ bind_cong (apply_feature r o) (apply_plans kind (map plan_of rs ++ (p ∷ [])))
          (λ o. apply_in_order rs o >>= apply_plan p) (plans-features rs p)
      ∙ sym (bind_assoc (apply_feature r o) (apply_in_order rs) (apply_plan p))

  abbrev keeping : List (Registration P) → P → O → Result (Mutator O P)
  keeping rs p o = ok (planning o (map plan_of rs) p)

  -- Applying the plans of features and a last plan keeps them all.
  apply-features :
      (rs : List (Registration P)) (p : P) (o : O)
      → apply kind (planning o (map plan_of rs) p)
        ≡ (apply_in_order rs o >>= apply_plan p >>= keeping rs p)
  unfolding apply planning
  apply-features rs p o = ap (λ x. x >>= keeping rs p) (plans-features rs p o)

  abbrev planned_context : List String
  planned_context = "failed to apply planned mutations" ∷ []

  abbrev suspension_context : List String
  suspension_context = "failed to apply suspension mutations" ∷ []

  apply_features-keeping :
      (rs : List (Registration P)) (o : O)
      → apply_features (feature_mutator kind) (map mutation_of rs) o
        ≡ with_context planned_context (apply_in_order rs o >>= keeping rs no_plan)
  unfolding apply_features feature_mutator new_mutator planning
  apply_features-keeping rs o =
      ap (λ x. x >>= λ m. with_context planned_context (apply kind m)) (apply_intents-plans rs o [])
      ∙ ap (with_context planned_context) (
          apply-features rs no_plan o
          ∙ ap (λ x. x >>= keeping rs no_plan)
              (bind_cong (apply_in_order rs o) (apply_plan no_plan) ok kind.apply_plan-no_plan
                ∙ bind_returns (apply_in_order rs o)))

  kept :
      (ctx : List String) (rs : List (Registration P)) (p : P) (x : Result O)
      → (with_context ctx (x >>= keeping rs p) >>= λ m. ok m.current) ≡ with_context ctx x
  unfolding planning
  kept ctx rs p (ok o) = refl
  kept ctx rs p (err e) = refl

  -- When the mutations of a workload each register a plan, behind gates that answer, running them is
  -- running the enabled ones one after the other, each on the object as the one before has left it, up to
  -- the first whose plan fails. A disabled one does nothing.
  pub apply_mutations-in_order :
      (rs : List (Registration P)) (o : O)
      → apply_mutations (feature_mutator kind) (map mutation_of rs) none o
        ≡ with_context ("failed to apply planned mutations" ∷ []) (apply_in_order rs o)
  unfolding apply_mutations apply_suspension feature_mutator
  apply_mutations-in_order rs o =
      ap (λ x. x >>= ok >>= λ m. ok m.current) (apply_features-keeping rs o)
      ∙ ap (λ x. x >>= λ m. ok m.current)
          (bind_returns (with_context planned_context (apply_in_order rs o >>= keeping rs no_plan)))
      ∙ kept planned_context rs no_plan (apply_in_order rs o)

  suspended :
      (rs : List (Registration P)) (g : P → P) (x : Result O)
      → (with_context planned_context (x >>= keeping rs no_plan)
          >>= apply_suspension (feature_mutator kind) (some (λ m. ok (planned g m)))
          >>= λ m. ok m.current)
        ≡ (with_context planned_context x >>= λ o.
            with_context suspension_context (apply_in_order rs o >>= apply_plan (g no_plan)))
  unfolding apply_suspension planned feature_mutator planning
  suspended rs g (err e) = refl
  suspended rs g (ok o) =
      ap (λ x. with_context suspension_context x >>= λ m. ok m.current)
        (apply-features rs (g no_plan) o)
      ∙ kept suspension_context rs (g no_plan) (apply_in_order rs o >>= apply_plan (g no_plan))

  -- the plans that a suspension runs, as steps on objects that are values: where an edit changes in
  -- place what a plan still holds, the second run of the plans starts from the changed plan instead
  pub apply_mutations-suspended :
      (rs : List (Registration P)) (g : P → P) (o : O)
      → apply_mutations (feature_mutator kind) (map mutation_of rs) (some (λ m. ok (planned g m))) o
        ≡ (with_context ("failed to apply planned mutations" ∷ []) (apply_in_order rs o) >>= λ o.
            with_context
              ("failed to apply suspension mutations" ∷ [])
              (apply_in_order rs o >>= apply_plan (g no_plan)))
  unfolding apply_mutations feature_mutator
  apply_mutations-suspended rs g o =
      ap
        (λ x. x >>= apply_suspension (feature_mutator kind) (some (λ m. ok (planned g m))) >>= λ m.
          ok m.current)
        (apply_features-keeping rs o)
      ∙ suspended rs g (apply_in_order rs o)
