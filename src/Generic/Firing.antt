-- ===== src/Generic/Firing.antt =====
-- What the inspection of a resource's mutations reports.
use operator_component_frame.Prelude.{
  String, ◌≡◌, refl, sym, ◌∙◌, Bool, true, false, ◌&&◌, ◌||◌, List, [], ◌∷◌, ◌++◌, Result, ok, err,
  Error, any, Any, str_eq, if◌then◌else◌, arith, eq_iff, Bool-cases, inl, inr,
}
use operator_component_frame.Prelude.Results.{◌>>=◌, with_context}
use operator_component_frame.Feature.{Mutation}
use operator_component_frame.Generic.Base.{
  BaseResource, add_name, gate_of, register_names, fire, registered_mutations, firing_set,
}

abbrev pub has : String → List String → Bool
has n names = any (λ m. str_eq m n) names

-- no name is in the list twice
abbrev pub IsDistinct : List String → Type 0
IsDistinct [] = Unit
IsDistinct (n ∷ ns) = (has n ns ≡ false) × IsDistinct ns

abbrev is_on : Result Bool → Bool
is_on (ok b) = b
is_on (err e) = false

module _ {M : Type 0} where
  -- whether some mutation of a name has a gate that lets it run
  abbrev pub fires : String → List (Mutation M) → Bool
  fires n ms = any (λ m. is_on (gate_of m) && str_eq m.name n) ms

  abbrev pub is_registered : String → List (Mutation M) → Bool
  is_registered n ms = any (λ m. str_eq m.name n) ms

has-snoc : (n m : String) (ns : List String) → has n (ns ++ (m ∷ [])) ≡ (has n ns || str_eq m n)
has-snoc n m [] = ground arith
has-snoc n m (x ∷ xs) = ground (arith, has-snoc n m xs)

has-add_name : (n m : String) (ns : List String) → has n (add_name m ns) ≡ (has n ns || str_eq m n)
unfolding add_name
has-add_name n m ns = elim (Bool-cases (has m ns)) [
  | inl e ↦ rw e (ground (arith, e, eq_iff m n))
  | inr e ↦ rw e (has-snoc n m ns)
]

snoc-IsDistinct :
    (m : String) (ns : List String) → has m ns ≡ false → IsDistinct ns → IsDistinct (ns ++ (m ∷ []))
snoc-IsDistinct m [] h d = (refl, tt)
snoc-IsDistinct m (n ∷ ns) h d = (
  ground (arith, has-snoc n m ns, d.0, h, eq_iff n m, eq_iff m n),
  snoc-IsDistinct m ns (ground (arith, h)) d.1,
)

add_name-IsDistinct : (m : String) (ns : List String) → IsDistinct ns → IsDistinct (add_name m ns)
unfolding add_name
add_name-IsDistinct m ns d = elim (Bool-cases (has m ns)) [
  | inl e ↦ rw e d
  | inr e ↦ rw e (snoc-IsDistinct m ns e d)
]

module _ {M : Type 0} where
  has-register_names :
      (n : String) (ms : List (Mutation M)) (names : List String)
      → has n (register_names names ms) ≡ (has n names || is_registered n ms)
  unfolding register_names
  has-register_names n [] names = ground arith
  has-register_names n (m ∷ ms) names =
      ground (arith, has-register_names n ms (add_name m.name names), has-add_name n m.name names)

  -- What a report of firing mutations, on top of names that are there already, says.
  abbrev IsReport : List String → List (Mutation M) → Result (List String) → Type 0
  IsReport names ms (err e) = Any (λ m. (x : Error) × (gate_of m ≡ err x)) ms
  IsReport names ms (ok firing) =
      IsDistinct firing × ((n : String) → has n firing ≡ (has n names || fires n ms))

  -- A report on more names is a report on fewer, with one mutation more.
  IsReport-cons :
      (names names' : List String) (m : Mutation M) (ms : List (Mutation M))
      (x : Result (List String))
      → ((n : String) → (has n names' || fires n ms) ≡ (has n names || fires n (m ∷ ms)))
      → IsReport names' ms x
      → IsReport names (m ∷ ms) x
  IsReport-cons names names' m ms (err e) h r = inr r
  IsReport-cons names names' m ms (ok firing) h r = (r.0, λ n. r.1 n ∙ h n)

  -- the gate of a mutation, taken apart
  abbrev fire_after :
      List String → Mutation M → List (Mutation M) → Result Bool → Result (List String)
  fire_after names m ms gate =
      with_context ("evaluating gate for mutation \"" ∷ m.name ∷ "\"" ∷ []) gate >>= λ enabled.
      fire (if enabled then add_name m.name names else names) ms

  after-IsReport :
      (names : List String) (m : Mutation M) (ms : List (Mutation M)) (gate : Result Bool)
      → gate_of m ≡ gate
      → IsDistinct names
      → ((ns : List String) → IsDistinct ns → IsReport ns ms (fire ns ms))
      → IsReport names (m ∷ ms) (fire_after names m ms gate)
  after-IsReport names m ms (err e) h d ih = inl (e, h)
  after-IsReport names m ms (ok true) h d ih =
      IsReport-cons names (add_name m.name names) m ms (fire (add_name m.name names) ms)
        (λ n. rw h (ground (arith, has-add_name n m.name names)))
        (ih (add_name m.name names) (add_name-IsDistinct m.name names d))
  after-IsReport names m ms (ok false) h d ih =
      IsReport-cons names names m ms (fire names ms) (λ n. rw h refl) (ih names d)

  fire-IsReport :
      (ms : List (Mutation M)) (names : List String)
      → IsDistinct names
      → IsReport names ms (fire names ms)
  unfolding fire
  fire-IsReport [] names d = (d, λ n. ground arith)
  fire-IsReport (m ∷ ms) names d = after-IsReport names m ms (gate_of m) refl d (fire-IsReport ms)

  fires-is_registered :
      (n : String) (ms : List (Mutation M)) → fires n ms ≡ true → is_registered n ms ≡ true
  fires-is_registered n [] h = h
  fires-is_registered n (m ∷ ms) h = ground (arith, h, fires-is_registered n ms)

module _ {T M : Type 0} where
  -- What a report of firing mutations says: the names, without repetition, of the mutations whose gate
  -- lets them run, all of them registered; and an error only if a gate ends in one.
  abbrev pub IsReported : BaseResource T M → Result (List String) → Type 0
  IsReported r (err e) = Any (λ m. (x : Error) × (gate_of m ≡ err x)) r.mutations
  IsReported r (ok firing) =
      IsDistinct firing
      × ((n : String) → has n firing ≡ fires n r.mutations)
      × ((n : String) → has n firing ≡ true → has n (registered_mutations r) ≡ true)

  reported :
      (r : BaseResource T M) (x : Result (List String)) → IsReport [] r.mutations x → IsReported r x
  unfolding registered_mutations
  reported r (err e) h = h
  reported r (ok firing) h = (
    h.0,
    h.1,
    λ n f.
        has-register_names n r.mutations [] ∙ fires-is_registered n r.mutations (sym (h.1 n) ∙ f),
  )

  -- `FiringSet` reports the names of the mutations whose gates let them run, those without a gate
  -- included, each once and all of them in `RegisteredMutations`; it fails only if a gate does.
  pub firing_set-IsReported : (r : BaseResource T M) → IsReported r (firing_set r)
  unfolding firing_set
  firing_set-IsReported r = reported r (fire [] r.mutations) (fire-IsReport r.mutations [] tt)
