-- ===== src/Generic/Typed.antt =====
-- pkg/generic/resource_base.go: the methods of the resource that assert the type of an object or copy
-- its own, and those on its data.
use operator_component_frame.Prelude.{
  String, ◌||◌, Option, none, some, List, [], ◌∷◌, Result, ok, err, Error, new_error, wrap, concat,
  join, if◌then◌else◌,
}
use operator_component_frame.Prelude.Results.{◌>>=◌}
use operator_component_frame.Status.{Status, StatusWithReason}
use operator_component_frame.Generic.Mutations.{apply_features, apply_suspension, apply_mutations}
use operator_component_frame.Generic.Cells.{Cells, is_set, set}
use operator_component_frame.Generic.Base.{DataExtraction, Consumption, BaseResource}

-- What the code relies on for a type of objects `T` among all objects `O`: type assertions, deep copies,
-- and the names that `%T` prints.
pub record ObjectType (O T : Type 0) : Type 0 where
  pub as_typed : O → Option T
  pub copy_object : T → Option O
  pub copy_typed : T → Option T
  pub type_of : O → String
  pub typed_name : T → String
  pub zero_name : String

-- `DataExtraction.Extract`: the value of the function is stored in the cell
unfoldable pub extract : {T : Type 0} → DataExtraction T → T → Cells → Result Cells
extract e obj cells = e.fn obj >>= λ v. ok (set e.cell v cells)

-- what follows an extraction; an error is wrapped
abbrev pub extracted :
    {T : Type 0}
    → DataExtraction T
    → Cells
    → Result Cells
    → (Cells → Option Error × Cells)
    → Option Error × Cells
extracted e cells (err x) rest =
    (some (wrap ("extract data \"" ∷ e.cell.cell_name ∷ "\"" ∷ []) x), cells)
extracted e cells (ok cells') rest = rest cells'

-- the loop of `ExtractData`: it ends at the first error, and the cells that were set stay set
unfoldable pub extract_all :
    {T : Type 0} → List (DataExtraction T) → T → Cells → Option Error × Cells
unfolding extract
extract_all [] obj cells = (none, cells)
extract_all (e ∷ es) obj cells = extracted e cells (extract e obj cells) (extract_all es obj)

-- the loop of `GuardStatus`: the quoted names of the cells that are needed and not set
unfoldable pub missing : List Consumption → Cells → List String
unfolding is_set
missing [] cells = []
missing (c ∷ cs) cells =
    let rest = missing cs cells in
    if c.optional || is_set c.cell cells
    then rest
    else concat ("\"" ∷ c.cell.cell_name ∷ "\"" ∷ []) ∷ rest

abbrev pub waiting : List String → StatusWithReason
waiting names = record {
  status = Status.guard_blocked;
  reason = concat ("waiting for data " ∷ join ", " names ∷ []);
}

module _ {O T : Type 0} (type : ObjectType O T) where
  abbrev pub copy_error : T → Error
  copy_error t = new_error (concat ("failed to deep copy object of type " ∷ type.typed_name t ∷ []))

  abbrev pub type_error : O → Error
  type_error current = new_error (
      concat (
        "type assertion failed: expected current to be assignable to "
        ∷ type.zero_name
        ∷ ", got "
        ∷ type.type_of current
        ∷ []))

module _ {T M : Type 0} where
  -- a resource after its suspender has run: it is used once
  abbrev pub spent : BaseResource T M → BaseResource T M
  spent r = record r { suspender = none }

  -- the end of `Mutate`, after the suspension
  abbrev pub after_suspension : BaseResource T M → Result M → Option Error × BaseResource T M
  after_suspension r (err e) = (some e, spent r)
  after_suspension r (ok m) =
      (none, record (spent r) { desired_object = r.feature_mutator.current m })

  -- the end of `Mutate`, after the features
  abbrev pub after_features : BaseResource T M → Result M → Option Error × BaseResource T M
  after_features r (err e) = (some e, r)
  after_features r (ok m) = after_suspension r (apply_suspension r.feature_mutator r.suspender m)

module _ {O T M : Type 0} (type : ObjectType O T) where
  -- `Object`
  unfoldable pub object : BaseResource T M → Result O
  object r = elim (type.copy_object r.desired_object) [
    | none ↦ err (copy_error type r.desired_object)
    | some obj ↦ ok obj
  ]

  -- `Mutate`
  unfoldable pub mutate : O → BaseResource T M → Option Error × BaseResource T M
  mutate current r = elim (type.as_typed current) [
    | none ↦ (some (type_error type current), r)
    | some t ↦ after_features r (apply_features r.feature_mutator r.mutations t)
  ]

  -- `PreviewObject`, which leaves the suspension out
  unfoldable pub preview_object : BaseResource T M → Result T
  preview_object r = elim (type.copy_typed r.desired_object) [
    | none ↦ err (copy_error type r.desired_object)
    | some t ↦ apply_mutations r.feature_mutator r.mutations none t
  ]

  -- `ExtractData`
  unfoldable pub extract_data : BaseResource T M → Cells → Option Error × Cells
  unfolding extract_all
  extract_data r cells = elim (type.copy_typed r.desired_object) [
    | none ↦ (some (copy_error type r.desired_object), cells)
    | some t ↦ extract_all r.data_extractions t cells
  ]

  -- `RecordObservation`
  unfoldable pub record_observation : O → BaseResource T M → Option Error × BaseResource T M
  record_observation observed r = elim (type.as_typed observed) [
    | none ↦ (
      some (
          new_error (
            concat (
              "failed to record observation: expected object of type "
              ∷ type.typed_name r.desired_object
              ∷ ", got "
              ∷ type.type_of observed
              ∷ []))),
      r,
    )
    | some t ↦ (none, record r { desired_object = t })
  ]

  -- the part of `GuardStatus` after the data, on a copy of the object
  unfoldable pub handler_status : BaseResource T M → Result StatusWithReason
  handler_status r = elim r.guard_handler [
    | none ↦ ok (record { status = Status.guard_unblocked; reason = "" })
    | some handler ↦ elim (type.copy_typed r.desired_object) [
      | none ↦ err (copy_error type r.desired_object)
      | some t ↦ handler t
    ]
  ]

  -- `GuardStatus`
  unfoldable pub guard_status : BaseResource T M → Cells → Result StatusWithReason
  unfolding missing handler_status
  guard_status r cells = elim (missing r.data_consumptions cells) [
    | [] ↦ handler_status r
    | name ∷ names ↦ ok (waiting (name ∷ names))
  ]
