-- ===== src/Topology/Order.antt =====
-- A component without violations reads only data that an earlier resource produces.
use operator_component_frame.Prelude.{
  ℕ, String, ◌≡◌, refl, sym, ◌∙◌, ap, Bool, true, false, ◌||◌, Option, none, some, List, [], ◌∷◌,
  ◌++◌, All, any, ◌==◌, if◌then◌else◌, arith,
}
use operator_component_frame.Resource.{DataCell, DataConsumption, ReconcileEntry}
use mathlib.Core.Path.{subst}
use operator_component_frame.Cluster.Sends.{All-map}
use operator_component_frame.Topology.{
  Walk, violation, name_checked, name_taken, not_yet_produced, find_named, is_produced, check_name,
  check_read, check_reads, add_cell, check_write, check_writes, or_empty, visit, visit_all,
  validate_data_topology,
}

no_more : {A : Type 0} (xs : List A) (y : A) → xs ++ (y ∷ []) ≡ [] → ⊥
no_more [] y h = ground arith
no_more (x ∷ xs) y h = ground arith

-- the read of a cell that is in the set
abbrev pub IsFed : List ℕ → Option DataCell → Type 0
IsFed pointers none = ⊥
IsFed pointers (some cell) = is_produced cell.pointer pointers ≡ true

violation_fails : (t : Walk) (message : List String) → (violation t message).errors ≡ [] → ⊥
violation_fails t message h = no_more t.errors _ h

branch_keeps :
    (b : Bool) (t : Walk) (message : List String)
    → ((if b then t else violation t message).produced ≡ t.produced)
      × ((if b then t else violation t message).errors ≡ [] → (b ≡ true) × (t.errors ≡ []))
branch_keeps true t message = (refl, λ h. (refl, h))
branch_keeps false t message = (refl, λ h. elim (violation_fails t message h) [ ])

named_keeps :
    (n i : String) (cell : DataCell) (t : Walk) (o : Option DataCell)
    → ((name_checked n i cell t o).produced ≡ t.produced)
      × ((name_checked n i cell t o).errors ≡ [] → t.errors ≡ [])
named_keeps n i cell t none = (refl, λ h. h)
named_keeps n i cell t (some existing) =
    let k = branch_keeps (existing.pointer == cell.pointer) t (name_taken n i cell) in
    (k.0, λ h. (k.1 h).1)

check_name_keeps :
    (n i : String) (cell : DataCell) (t : Walk)
    → ((check_name n i cell t).produced ≡ t.produced)
      × ((check_name n i cell t).errors ≡ [] → t.errors ≡ [])
unfolding check_name
check_name_keeps n i cell t = named_keeps n i cell t (find_named t.names cell.cell_name)

check_read_keeps :
    (n i : String) (t : Walk) (o : Option DataCell)
    → ((check_read n i t o).produced ≡ t.produced)
      × ((check_read n i t o).errors ≡ [] → IsFed t.produced o × (t.errors ≡ []))
unfolding check_read
check_read_keeps n i t none = (refl, λ h. elim (no_more t.errors _ h) [ ])
check_read_keeps n i t (some cell) =
    let u = check_name n i cell t in
    let same = check_name_keeps n i cell t in
    let k = branch_keeps (is_produced cell.pointer u.produced) u (not_yet_produced i cell) in
    (
      k.0 ∙ same.0,
      λ h. (
        ap (λ (l : List ℕ). is_produced cell.pointer l) (sym same.0) ∙ (k.1 h).0,
        same.1 (k.1 h).1,
      ),
    )

check_reads_keeps :
    (n i : String) (t : Walk) (cs : List DataConsumption)
    → ((check_reads n i t cs).produced ≡ t.produced)
      × ((check_reads n i t cs).errors ≡ []
          → All (λ (c : DataConsumption). IsFed t.produced c.cell) cs × (t.errors ≡ []))
unfolding check_reads
check_reads_keeps n i t [] = (refl, λ h. (tt, h))
check_reads_keeps n i t (c ∷ cs) =
    let u = check_read n i t c.cell in
    let one = check_read_keeps n i t c.cell in
    let rest = check_reads_keeps n i u cs in
    (
      rest.0 ∙ one.0,
      λ h. (
        (
          (one.1 (rest.1 h).1).0,
          subst (λ (l : List ℕ). All (λ (d : DataConsumption). IsFed l d.cell) cs) one.0
              (rest.1 h).0,
        ),
        (one.1 (rest.1 h).1).1,
      ),
    )

-- whether the cell has the pointer
abbrev pub is_cell : ℕ → Option DataCell → Bool
is_cell pointer none = false
is_cell pointer (some cell) = cell.pointer == pointer

is_produced_cons : (p q : ℕ) (l : List ℕ) → is_produced p (q ∷ l) ≡ (q == p) || is_produced p l
unfolding is_produced
is_produced_cons p q l = refl

already_there :
    (p q : ℕ) (l : List ℕ) → is_produced q l ≡ true → is_produced p l ≡ (q == p) || is_produced p l
already_there p q l h = ground arith

added_keeps :
    (b : Bool) (cell : DataCell) (t : Walk) (p : ℕ)
    → is_produced cell.pointer t.produced ≡ b
    → let u : Walk = if b then t else record {
      produced = cell.pointer ∷ t.produced;
      names = t.names;
      cells = t.cells ++ (cell ∷ []);
      errors = t.errors;
    } in
      (is_produced p u.produced ≡ is_cell p (some cell) || is_produced p t.produced)
      × (u.errors ≡ t.errors)
added_keeps true cell t p h = (already_there p cell.pointer t.produced h, refl)
added_keeps false cell t p h = (is_produced_cons p cell.pointer t.produced, refl)

add_cell_keeps :
    (cell : DataCell) (t : Walk) (p : ℕ)
    → (is_produced p (add_cell cell t).produced ≡ is_cell p (some cell) || is_produced p t.produced)
      × ((add_cell cell t).errors ≡ t.errors)
unfolding add_cell
add_cell_keeps cell t p = added_keeps (is_produced cell.pointer t.produced) cell t p refl

check_write_keeps :
    (n i : String) (t : Walk) (o : Option DataCell) (p : ℕ)
    → (is_produced p (check_write n i t o).produced ≡ is_cell p o || is_produced p t.produced)
      × ((check_write n i t o).errors ≡ [] → t.errors ≡ [])
unfolding check_write
check_write_keeps n i t none p = (refl, λ h. elim (no_more t.errors _ h) [ ])
check_write_keeps n i t (some cell) p =
    let u = check_name n i cell t in
    let same = check_name_keeps n i cell t in
    let k = add_cell_keeps cell u p in
    (
      k.0 ∙ ap (λ (l : List ℕ). is_cell p (some cell) || is_produced p l) same.0,
      λ h. same.1 (sym k.1 ∙ h),
    )

or_swap : (a b c : Bool) → a || (b || c) ≡ (b || a) || c
or_swap a b c = ground arith

check_writes_keeps :
    (n i : String) (t : Walk) (cs : List (Option DataCell)) (p : ℕ)
    → (is_produced p (check_writes n i t cs).produced
        ≡ any (is_cell p) cs || is_produced p t.produced)
      × ((check_writes n i t cs).errors ≡ [] → t.errors ≡ [])
unfolding check_writes
check_writes_keeps n i t [] p = (refl, λ h. h)
check_writes_keeps n i t (c ∷ cs) p =
    let one = check_write_keeps n i t c p in
    let rest = check_writes_keeps n i (check_write n i t c) cs p in
    (
      rest.0
          ∙ ap (λ (b : Bool). any (is_cell p) cs || b) one.0
          ∙ or_swap (any (is_cell p) cs) (is_cell p c) (is_produced p t.produced),
      λ h. one.1 (rest.1 h),
    )

module _ {W : Type 0} where
  -- whether a resource writes the cell
  abbrev pub writes : ℕ → ReconcileEntry W → Bool
  writes p entry = any (is_cell p) (or_empty entry.resource.produced_data)

  -- a read of a cell that an earlier resource writes
  abbrev pub IsProvided : List (ReconcileEntry W) → Option DataCell → Type 0
  IsProvided earlier none = ⊥
  IsProvided earlier (some cell) = any (writes cell.pointer) earlier ≡ true

  -- each read of a resource is of a cell, and an earlier resource writes it
  unfoldable pub IsOrdered : List (ReconcileEntry W) → List (ReconcileEntry W) → Type 0
  IsOrdered earlier [] = Unit
  IsOrdered earlier (entry ∷ entries) =
      All (λ (c : DataConsumption). IsProvided earlier c.cell)
        (or_empty entry.resource.consumed_data)
      × IsOrdered (entry ∷ earlier) entries

  -- the set of a walk is what the visited resources write
  IsTracked : List (ReconcileEntry W) → Walk → Type 0
  IsTracked earlier t = (p : ℕ) → is_produced p t.produced ≡ any (writes p) earlier

  visit-IsTracked :
      (n : String) (t : Walk) (earlier : List (ReconcileEntry W)) (entry : ReconcileEntry W)
      → IsTracked earlier t
      → IsTracked (entry ∷ earlier) (visit n t entry)
  unfolding visit IsTracked
  visit-IsTracked n t earlier entry h p =
      let u = check_reads n entry.resource.identity t (or_empty entry.resource.consumed_data) in
      let r =
        check_reads_keeps n entry.resource.identity t (or_empty entry.resource.consumed_data) in
      let w =
        check_writes_keeps n entry.resource.identity u (or_empty entry.resource.produced_data) p in
      w.0
      ∙ ap (λ (l : List ℕ). writes p entry || is_produced p l) r.0
      ∙ ap (λ (b : Bool). writes p entry || b) (h p)

  fed-IsProvided :
      (t : Walk) (earlier : List (ReconcileEntry W)) (o : Option DataCell)
      → IsTracked earlier t
      → IsFed t.produced o
      → IsProvided earlier o
  unfolding IsTracked
  fed-IsProvided t earlier none h k = k
  fed-IsProvided t earlier (some cell) h k = sym (h cell.pointer) ∙ k

  visit_reads :
      (n : String) (t : Walk) (earlier : List (ReconcileEntry W)) (entry : ReconcileEntry W)
      → IsTracked earlier t
      → (visit n t entry).errors ≡ []
      → All
          (λ (c : DataConsumption). IsProvided earlier c.cell)
          (or_empty entry.resource.consumed_data)
        × (t.errors ≡ [])
  unfolding visit
  visit_reads n t earlier entry h e =
      let cs = or_empty entry.resource.consumed_data in
      let u = check_reads n entry.resource.identity t cs in
      let r = check_reads_keeps n entry.resource.identity t cs in
      let w =
        check_writes_keeps n entry.resource.identity u (or_empty entry.resource.produced_data) 0 in
      let k = r.1 (w.1 e) in (All-map _ _ cs (λ c f. fed-IsProvided t earlier c.cell h f) k.0, k.1)

  visit_all-IsOrdered :
      (n : String) (t : Walk) (earlier entries : List (ReconcileEntry W))
      → IsTracked earlier t
      → (visit_all n t entries).errors ≡ []
      → IsOrdered earlier entries × (t.errors ≡ [])
  unfolding visit_all IsOrdered
  visit_all-IsOrdered n t earlier [] h e = (tt, e)
  visit_all-IsOrdered n t earlier (entry ∷ entries) h e =
      let rest =
        visit_all-IsOrdered n (visit n t entry) (entry ∷ earlier) entries
          (visit-IsTracked n t earlier entry h) e in
      let one = visit_reads n t earlier entry h rest.1 in ((one.0, rest.0), one.1)

  -- If the validation finds no violation, then each read that a resource declares is of a cell, and
  -- a resource registered strictly earlier declares that it writes this cell.
  pub validate_data_topology-IsOrdered :
      (component_name : String) (entries : List (ReconcileEntry W))
      → (validate_data_topology component_name entries).1 ≡ []
      → IsOrdered [] entries
  unfolding validate_data_topology IsTracked is_produced
  validate_data_topology-IsOrdered component_name entries h =
      (visit_all-IsOrdered component_name
        (record { produced = []; names = []; cells = []; errors = [] }) [] entries (λ p. refl) h).0
