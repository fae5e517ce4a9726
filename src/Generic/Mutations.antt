-- ===== src/Generic/Mutations.antt =====
-- pkg/generic/mutate_helper.go: the mutations of a resource, run on an object.
use operator_component_frame.Prelude.{Option, none, some, List, [], ◌∷◌, Result, ok}
use operator_component_frame.Prelude.Results.{◌>>=◌, with_context}
use operator_component_frame.Feature.{Mutation, apply_intent}

-- `FeatureMutator`, with the function that makes one for an object, and the object it points to
pub record FeatureMutator (T M : Type 0) : Type 0 where
  pub new_mutator : T → M
  pub next_feature : M → M
  pub apply : M → Result M
  pub current : M → T

module _ {T M : Type 0} (fm : FeatureMutator T M) where
  -- the loop of `ApplyMutations`: every mutation registers its intents in a scope of its own
  unfoldable pub apply_intents : List (Mutation M) → M → Result M
  apply_intents [] m = ok m
  apply_intents (mutation ∷ mutations) m =
      with_context ("failed to apply mutation intent for " ∷ mutation.name ∷ [])
        (apply_intent mutation m)
      >>= λ m. apply_intents mutations (fm.next_feature m)

  -- `ApplyMutations` up to the suspension
  unfoldable pub apply_features : List (Mutation M) → T → Result M
  unfolding apply_intents
  apply_features mutations current = apply_intents mutations (fm.new_mutator current) >>= λ m.
      with_context ("failed to apply planned mutations" ∷ []) (fm.apply m)

  -- the suspension in `ApplyMutations`
  unfoldable pub apply_suspension : Option (M → Result M) → M → Result M
  apply_suspension none m = ok m
  apply_suspension (some suspender) m =
      suspender m >>= λ m. with_context ("failed to apply suspension mutations" ∷ []) (fm.apply m)

  -- `ApplyMutations`, for an object of the right type
  unfoldable pub apply_mutations : List (Mutation M) → Option (M → Result M) → T → Result T
  unfolding apply_features apply_suspension
  apply_mutations mutations suspender current =
      apply_features mutations current >>= apply_suspension suspender >>= λ m. ok (fm.current m)
