-- ===== src/Generic/Cells.antt =====
-- pkg/component/concepts/data.go: data cells. The cells of a program are a function from pointers to
-- their values; the values are texts.
use operator_component_frame.Prelude.{
  ℕ, String, Bool, true, false, Option, none, some, ◌∷◌, [], Result, ok, err, new_error, wrap,
  is_some, ◌==◌, if◌then◌else◌,
}
use operator_component_frame.Resource.{DataCell}

abbrev pub Cells : Type 0
Cells = ℕ → Option String

-- `Data.IsSet`
unfoldable pub is_set : DataCell → Cells → Bool
is_set cell cells = is_some (cells cell.pointer)

-- `Data.Get`; a value that is not set is the zero value
unfoldable pub get : DataCell → Cells → String × Bool
get cell cells = elim (cells cell.pointer) [ none ↦ ("", false) | some v ↦ (v, true) ]

-- `Data.Require`, with `ErrDataNotExtracted`
unfoldable pub require : DataCell → Cells → Result String
require cell cells = elim (cells cell.pointer) [
  | none ↦ err (wrap ("data \"" ∷ cell.cell_name ∷ "\"" ∷ []) (new_error "data not extracted"))
  | some v ↦ ok v
]

-- `Data.Set`
unfoldable pub set : DataCell → String → Cells → Cells
set cell v cells = λ p. if p == cell.pointer then some v else cells p

-- `Data.Clear`
unfoldable pub clear : DataCell → Cells → Cells
clear cell cells = λ p. if p == cell.pointer then none else cells p
