-- ===== src/Generic/Base.antt =====
-- pkg/generic/resource_base.go and data.go: the resource and its methods.
use operator_component_frame.Prelude.{
  String, Bool, true, false, Option, none, some, List, [], ◌∷◌, ◌++◌, Result, ok, err, Error,
  new_error, any, str_eq, ◌==◌, if◌then◌else◌,
}
use operator_component_frame.Prelude.Results.{◌>>=◌, with_context}
use operator_component_frame.Status.{StatusWithReason}
use operator_component_frame.Feature.{Mutation}
use operator_component_frame.Resource.{DataCell}
use operator_component_frame.Generic.Mutations.{FeatureMutator}

-- `DataExtraction`, as `ExtractInto` builds it: a cell, and the function whose value it gets
pub record DataExtraction (T : Type 0) : Type 0 where
  pub cell : DataCell
  pub fn : T → Result String

-- `concepts.DataConsumption`, with a cell that is not nil
pub record Consumption : Type 0 where
  pub cell : DataCell
  pub optional : Bool

-- `BaseResource`
pub record BaseResource (T M : Type 0) : Type 0 where
  pub desired_object : T
  pub identity_func : T → String
  pub metrics_identifier : String
  pub data_extractions : List (DataExtraction T)
  pub data_consumptions : List Consumption
  pub feature_mutator : FeatureMutator T M
  pub mutations : List (Mutation M)
  pub suspender : Option (M → Result M)
  pub guard_handler : Option (T → Result StatusWithReason)
  pub suspend_status_handler : Option (T → Result StatusWithReason)
  pub suspend_mutation_handler : Option (M → Result M)
  pub delete_on_suspend_handler : Option (T → Bool)

-- a name that is not in the list yet, at its end
unfoldable pub add_name : String → List String → List String
add_name name names = if any (λ n. str_eq n name) names then names else names ++ (name ∷ [])

-- whether the gate of a mutation lets it run
unfoldable pub gate_of : {M : Type 0} → Mutation M → Result Bool
gate_of m = elim m.feature [ none ↦ ok true | some gate ↦ gate ]

-- the loop of `RegisteredMutations`; the set of names that were seen has the names of the list
unfoldable pub register_names : {M : Type 0} → List String → List (Mutation M) → List String
unfolding add_name
register_names names [] = names
register_names names (m ∷ ms) = register_names (add_name m.name names) ms

-- the loop of `FiringSet`; the set of names that were seen has the names of the list
unfoldable pub fire : {M : Type 0} → List String → List (Mutation M) → Result (List String)
unfolding add_name gate_of
fire firing [] = ok firing
fire firing (m ∷ ms) =
    with_context ("evaluating gate for mutation \"" ∷ m.name ∷ "\"" ∷ []) (gate_of m) >>= λ enabled.
    fire (if enabled then add_name m.name firing else firing) ms

-- the loop of `ProducedData`: a cell is told apart by its pointer
unfoldable pub produced_from :
    {T : Type 0} → List DataCell → List (DataExtraction T) → List DataCell
produced_from cells [] = cells
produced_from cells (e ∷ es) =
    produced_from
      (if any (λ c. c.pointer == e.cell.pointer) cells then cells else cells ++ (e.cell ∷ [])) es

module _ {T M : Type 0} where
  -- `Identity`
  unfoldable pub identity : BaseResource T M → String
  identity r = r.identity_func r.desired_object

  -- `RegisteredMutations`
  unfoldable pub registered_mutations : BaseResource T M → List String
  unfolding register_names
  registered_mutations r = register_names [] r.mutations

  -- `FiringSet`
  unfoldable pub firing_set : BaseResource T M → Result (List String)
  unfolding fire
  firing_set r = fire [] r.mutations

  -- `ProducedData`
  unfoldable pub produced_data : BaseResource T M → List DataCell
  unfolding produced_from
  produced_data r = produced_from [] r.data_extractions

  -- `ConsumedData`
  unfoldable pub consumed_data : BaseResource T M → List Consumption
  consumed_data r = r.data_consumptions

  -- `DeleteOnSuspend`
  unfoldable pub delete_on_suspend : BaseResource T M → Bool
  delete_on_suspend r = elim r.delete_on_suspend_handler [
    | none ↦ false
    | some handler ↦ handler r.desired_object
  ]

  -- `Suspend`: the next mutation of the object also runs the handler
  unfoldable pub suspend : BaseResource T M → Option Error × BaseResource T M
  suspend r = elim r.suspend_mutation_handler [
    | none ↦ (some (new_error "suspend mutation handler is not configured"), r)
    | some handler ↦ (none, record r { suspender = some handler })
  ]

  -- `SuspensionStatus`
  unfoldable pub suspension_status : BaseResource T M → Result StatusWithReason
  suspension_status r = elim r.suspend_status_handler [
    | none ↦ err (new_error "suspend status handler is not configured")
    | some handler ↦ handler r.desired_object
  ]
