-- ===== src/Topology.antt =====
-- pkg/component/data.go: the validation of the data flow between the resources of a component.
pub mod Order
use operator_component_frame.Prelude.{
  ℕ, String, Bool, true, false, not, Option, none, some, List, [], ◌∷◌, ◌++◌, Error, new_error,
  concat, str_eq, any, ◌==◌, if◌then◌else◌,
}
use operator_component_frame.Resource.{DataCell, DataConsumption, ReconcileEntry}

-- the variables of `validateDataTopology`: a set of pointers, the cells by their names, the cells in
-- the order of their first producers, and the violations
pub record Walk : Type 0 where
  pub produced : List ℕ
  pub names : List DataCell
  pub cells : List DataCell
  pub errors : List Error

unfoldable pub is_produced : ℕ → List ℕ → Bool
is_produced pointer pointers = any (λ p. p == pointer) pointers

abbrev violation : Walk → List String → Walk
violation t message = record {
  produced = t.produced;
  names = t.names;
  cells = t.cells;
  errors = t.errors ++ (new_error (concat message) ∷ []);
}

abbrev find_named : List DataCell → String → Option DataCell
find_named [] name = none
find_named (c ∷ cs) name =
    let rest = find_named cs name in if str_eq c.cell_name name then some c else rest

abbrev pub name_taken : String → String → DataCell → List String
name_taken component_name identity cell =
    "resource \"" ∷ identity ∷ "\" in component \"" ∷ component_name ∷ "\" declares data \""
    ∷ cell.cell_name
    ∷ "\", but a distinct cell already uses that name; data names must be unique within a component"
    ∷ []

abbrev pub not_yet_produced : String → DataCell → List String
not_yet_produced identity cell =
    "resource \"" ∷ identity ∷ "\" reads data \"" ∷ cell.cell_name
    ∷ "\" but no earlier resource produces it" ∷ []

abbrev name_checked : String → String → DataCell → Walk → Option DataCell → Walk
name_checked component_name identity cell t none = record {
  produced = t.produced;
  names = cell ∷ t.names;
  cells = t.cells;
  errors = t.errors;
}
name_checked component_name identity cell t (some existing) =
    if existing.pointer == cell.pointer
    then t
    else violation t (name_taken component_name identity cell)

-- `checkName`
unfoldable pub check_name : String → String → DataCell → Walk → Walk
check_name component_name identity cell t =
    name_checked component_name identity cell t (find_named t.names cell.cell_name)

-- one read; an absent cell is nil
unfoldable pub check_read : String → String → Walk → Option DataCell → Walk
check_read component_name identity t none = violation t (
    "resource \"" ∷ identity ∷ "\" in component \"" ∷ component_name
    ∷ "\" declares a nil data cell read" ∷ [])
check_read component_name identity t (some cell) =
    let u = check_name component_name identity cell t in
    if is_produced cell.pointer u.produced then u else violation u (not_yet_produced identity cell)

unfoldable pub check_reads : String → String → Walk → List DataConsumption → Walk
check_reads component_name identity t [] = t
check_reads component_name identity t (c ∷ cs) =
    check_reads component_name identity (check_read component_name identity t c.cell) cs

-- a cell that is not yet produced is added
unfoldable pub add_cell : DataCell → Walk → Walk
add_cell cell t = if is_produced cell.pointer t.produced then t else record {
  produced = cell.pointer ∷ t.produced;
  names = t.names;
  cells = t.cells ++ (cell ∷ []);
  errors = t.errors;
}

-- one write
unfoldable pub check_write : String → String → Walk → Option DataCell → Walk
check_write component_name identity t none = violation t (
    "resource \"" ∷ identity ∷ "\" in component \"" ∷ component_name
    ∷ "\" declares a nil data cell write" ∷ [])
check_write component_name identity t (some cell) =
    add_cell cell (check_name component_name identity cell t)

unfoldable pub check_writes : String → String → Walk → List (Option DataCell) → Walk
check_writes component_name identity t [] = t
check_writes component_name identity t (c ∷ cs) =
    check_writes component_name identity (check_write component_name identity t c) cs

abbrev pub or_empty : {A : Type 0} → Option (List A) → List A
or_empty none = []
or_empty (some l) = l

module _ {W : Type 0} where
  -- one round of `validateDataTopology`: the reads of a resource go before its own writes
  unfoldable pub visit : String → Walk → ReconcileEntry W → Walk
  visit component_name t entry =
      check_writes component_name entry.resource.identity
        (check_reads component_name entry.resource.identity t
          (or_empty entry.resource.consumed_data))
        (or_empty entry.resource.produced_data)

  unfoldable pub visit_all : String → Walk → List (ReconcileEntry W) → Walk
  visit_all component_name t [] = t
  visit_all component_name t (entry ∷ entries) =
      visit_all component_name (visit component_name t entry) entries

  -- `validateDataTopology`: the declared cells and the violations
  unfoldable pub validate_data_topology :
      String → List (ReconcileEntry W) → List DataCell × List Error
  validate_data_topology component_name entries =
      let t =
        visit_all component_name (record { produced = []; names = []; cells = []; errors = [] })
          entries in
      (t.cells, t.errors)
