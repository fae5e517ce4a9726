-- ===== src/Generic/Mutate.antt =====
-- What `Mutate` leaves of a generic resource.
use operator_component_frame.Prelude.{◌≡◌, refl, sym, Option, none, some, Result, ok, err, Error}
use mathlib.Core.Path.{subst}
use operator_component_frame.Prelude.Results.{◌>>=◌}
use operator_component_frame.Generic.Mutations.{apply_features, apply_suspension, apply_mutations}
use operator_component_frame.Generic.Base.{BaseResource}
use operator_component_frame.Generic.Typed.{
  ObjectType, mutate, type_error, after_suspension, after_features,
}

module _ {T M : Type 0} where
  -- What is left of a resource: after an error the object that it had, else the mutated object and no
  -- suspension.
  abbrev pub IsOutcome : BaseResource T M → Result T → Option Error × BaseResource T M → Type 0
  IsOutcome r (err e) (failed, r') = (failed ≡ some e) × (r'.desired_object ≡ r.desired_object)
  IsOutcome r (ok t) (failed, r') =
      (failed ≡ none) × (r' ≡ record r { desired_object = t; suspender = none })

  after_suspension-IsOutcome :
      (r : BaseResource T M) (x : Result M)
      → IsOutcome r (x >>= λ m. ok (r.feature_mutator.current m)) (after_suspension r x)
  after_suspension-IsOutcome r (ok m) = (refl, refl)
  after_suspension-IsOutcome r (err e) = (refl, refl)

  after_features-IsOutcome :
      (r : BaseResource T M) (x : Result M)
      → IsOutcome r
          (x >>= apply_suspension r.feature_mutator r.suspender >>= λ m.
            ok (r.feature_mutator.current m))
          (after_features r x)
  after_features-IsOutcome r (ok m) =
      after_suspension-IsOutcome r (apply_suspension r.feature_mutator r.suspender m)
  after_features-IsOutcome r (err e) = (refl, refl)

module _ {O T M : Type 0} (type : ObjectType O T) where
  -- For an object of the type, `Mutate` ends as `ApplyMutations` does: after an error the resource still
  -- has the object that it had; else it has the mutated object, and a suspension, which has run, is
  -- forgotten, and nothing else of it has changed.
  pub mutate-IsOutcome :
      (r : BaseResource T M) (current : O) (t : T)
      → type.as_typed current ≡ some t
      → IsOutcome r
          (apply_mutations r.feature_mutator r.mutations r.suspender t)
          (mutate type current r)
  unfolding mutate apply_mutations
  mutate-IsOutcome r current t h =
      subst
        (λ x.
          IsOutcome r (apply_mutations r.feature_mutator r.mutations r.suspender t)
            (elim x as (λ _. Option Error × BaseResource T M) [
              | none ↦ (some (type_error type current), r)
              | some t ↦ after_features r (apply_features r.feature_mutator r.mutations t)
            ]))
        (sym h) (after_features-IsOutcome r (apply_features r.feature_mutator r.mutations t))
