-- ===== src/Generic/Guard.antt =====
-- How the guard of one resource depends on the data that another extracts.
use operator_component_frame.Prelude.{
  ℕ, String, ◌≡◌, refl, sym, Bool, true, ◌||◌, Option, none, List, [], ◌∷◌, ◌++◌, Result, ok, err,
  All, any, arith, is_some, ◌==◌, Error, Bool-cases, Option-cases, inl, inr,
}
use operator_component_frame.Prelude.Results.{◌>>=◌}
use operator_component_frame.Cluster.Sends.{All-map}
use operator_component_frame.Resource.{DataCell}
use operator_component_frame.Generic.Cells.{Cells, is_set, set}
use operator_component_frame.Generic.Base.{
  DataExtraction, Consumption, BaseResource, produced_data, produced_from,
}
use operator_component_frame.Generic.Typed.{
  ObjectType, extract_all, extracted, extract_data, missing, guard_status, handler_status,
}

-- whether one of the cells has a pointer
abbrev pub holds : ℕ → List DataCell → Bool
holds p cells = any (λ c. c.pointer == p) cells

-- A resource may go on without the cell, or the cell is set, or it is among those that are produced.
abbrev pub IsServed : List DataCell → Cells → Consumption → Type 0
IsServed produced cells c =
    (c.optional || is_set c.cell cells || holds c.cell.pointer produced) ≡ true

holds-snoc :
    (p : ℕ) (cells : List DataCell) (c : DataCell)
    → holds p (cells ++ (c ∷ [])) ≡ (holds p cells || (c.pointer == p))
holds-snoc p [] c = ground arith
holds-snoc p (d ∷ cells) c = ground (arith, holds-snoc p cells c)

holds-also :
    (p q : ℕ) (cells : List DataCell)
    → holds q cells ≡ true
    → (holds p cells || (q == p)) ≡ holds p cells
holds-also p q cells h = elim (Bool-cases (q == p)) [
  | inl e ↦ let same : q ≡ p = ground (arith, e) in rw (sym same) (ground (arith, h))
  | inr e ↦ ground (arith, e)
]

-- After extractions that all succeed a cell is set.
abbrev Sets : ℕ → Option Error × Cells → Type 0
Sets p (failed, cells) = failed ≡ none → is_some (cells p) ≡ true

set_or :
    {T : Type 0} (e : DataExtraction T) (cells : Cells) (p : ℕ) (v : String) (rest : Bool)
    → (is_some (cells p) || ((e.cell.pointer == p) || rest)) ≡ true
    → (is_some (set e.cell v cells p) || rest) ≡ true
unfolding set
set_or e cells p v rest h = elim (Bool-cases (p == e.cell.pointer)) [
  | inl q ↦ rw q refl
  | inr q ↦ rw q (ground (arith, q, h))
]

module _ {T : Type 0} where
  abbrev extracts : ℕ → List (DataExtraction T) → Bool
  extracts p es = any (λ e. e.cell.pointer == p) es

  extracted-Sets :
      (e : DataExtraction T) (cells : Cells) (p : ℕ) (x : Result String)
      (rest : Cells → Option Error × Cells)
      → ((v : String) → Sets p (rest (set e.cell v cells)))
      → Sets p (extracted e cells (x >>= λ v. ok (set e.cell v cells)) rest)
  extracted-Sets e cells p (err x) rest h = λ k. ground (arith, k)
  extracted-Sets e cells p (ok v) rest h = h v

  -- A cell is set after extractions that succeed if it was set or is extracted.
  extract_all-Sets :
      (es : List (DataExtraction T)) (t : T) (cells : Cells) (p : ℕ)
      → (is_some (cells p) || extracts p es) ≡ true
      → Sets p (extract_all es t cells)
  unfolding extract_all
  extract_all-Sets [] t cells p k = λ h. ground (arith, k)
  extract_all-Sets (e ∷ es) t cells p k =
      extracted-Sets e cells p (e.fn t) (extract_all es t)
        λ v. extract_all-Sets es t (set e.cell v cells) p (set_or e cells p v (extracts p es) k)

  holds-produced_from :
      (es : List (DataExtraction T)) (p : ℕ) (cells : List DataCell)
      → holds p (produced_from cells es) ≡ (holds p cells || extracts p es)
  unfolding produced_from
  holds-produced_from [] p cells = ground arith
  holds-produced_from (e ∷ es) p cells = elim (Bool-cases (holds e.cell.pointer cells)) [
    | inl h ↦
        rw h
          (ground (arith, h, holds-produced_from es p cells, holds-also p e.cell.pointer cells h))
    | inr h ↦ rw h (
        ground
          (arith, holds-produced_from es p (cells ++ (e.cell ∷ [])), holds-snoc p cells e.cell))
  ]

  -- A resource whose extraction succeeds has set the cells that it produces, and cleared none.
  extract-serves :
      (es : List (DataExtraction T)) (t : T) (cells : Cells) (c : Consumption)
      → (extract_all es t cells).0 ≡ none
      → IsServed (produced_from [] es) cells c
      → (c.optional || is_set c.cell (extract_all es t cells).1) ≡ true
  unfolding is_set
  extract-serves es t cells c h k = elim (Bool-cases c.optional) [
    | inl o ↦ ground (arith, o)
    | inr o ↦
        let ready : (is_some (cells c.cell.pointer) || extracts c.cell.pointer es) ≡ true =
          ground (arith, o, k, holds-produced_from es c.cell.pointer []) in
        rw o (extract_all-Sets es t cells c.cell.pointer ready h)
  ]

missing-none :
    (cs : List Consumption) (cells : Cells)
    → All (λ c. (c.optional || is_set c.cell cells) ≡ true) cs
    → missing cs cells ≡ []
unfolding missing
missing-none [] cells h = refl
missing-none (c ∷ cs) cells h = rw h.0 (missing-none cs cells h.1)

missing-extract_all :
    {T : Type 0} (es : List (DataExtraction T)) (t : T) (cells : Cells) (cs : List Consumption)
    → (extract_all es t cells).0 ≡ none
    → All (IsServed (produced_from [] es) cells) cs
    → missing cs (extract_all es t cells).1 ≡ []
missing-extract_all es t cells cs h k = missing-none cs (extract_all es t cells).1 (
    All-map (IsServed (produced_from [] es) cells)
      (λ c. (c.optional || is_set c.cell (extract_all es t cells).1) ≡ true) cs
      (λ c. extract-serves es t cells c h) k)

module _ {O T M O' T' M' : Type 0} (type : ObjectType O T) (type' : ObjectType O' T') where
  -- After one resource has extracted its data without an error, a resource that needs only cells which
  -- that one produces or which were set before does not wait for data: its guard is its handler's answer,
  -- or unblocked where it has no handler.
  pub guard_status-extract_data :
      (producer : BaseResource T M) (consumer : BaseResource T' M') (cells : Cells)
      → (extract_data type producer cells).0 ≡ none
      → All (IsServed (produced_data producer) cells) consumer.data_consumptions
      → guard_status type' consumer (extract_data type producer cells).1
        ≡ handler_status type' consumer
  unfolding guard_status extract_data produced_data
  guard_status-extract_data producer consumer cells =
      elim (Option-cases (type.copy_typed producer.desired_object)) [
        | inl q ↦ rw (q, extract_data) λ h k. ground (arith, h)
        | inr (t, q) ↦
            rw (q, extract_data)
              λ h k.
                rw
                  (
                    missing-extract_all producer.data_extractions t cells consumer.data_consumptions
                        h k,
                    guard_status,
                  )
                  refl
      ]
