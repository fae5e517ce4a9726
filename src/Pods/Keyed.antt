-- ===== src/Pods/Keyed.antt =====
-- Lists of elements that have a name: what the editors and the mutators do with them, and what a
-- search by name finds afterwards.
use operator_component_frame.Prelude.{
  String, ◌≡◌, refl, not, Option, none, some, List, [], ◌∷◌, select, arith, str_eq, if◌then◌else◌,
  map, is_some, ◌++◌, eq_iff, Bool-cases, inl, inr,
}

module _ {A : Type 0} (key : A → String) where
  -- the first element of a name
  unfoldable pub find : String → List A → Option A
  find n [] = none
  find n (x ∷ xs) = let rest = find n xs in if str_eq (key x) n then some x else rest

  -- the first element of a name is replaced in place, or the new element is added at the end
  unfoldable pub put : String → A → List A → List A
  put n y [] = y ∷ []
  put n y (x ∷ xs) = let rest = put n y xs in if str_eq (key x) n then y ∷ xs else x ∷ rest

  -- an element in the place of the first of its own name
  abbrev pub ensure : A → List A → List A
  ensure y = put (key y) y

  -- the first element of a name is removed
  unfoldable pub remove_first : String → List A → List A
  remove_first n [] = []
  remove_first n (x ∷ xs) =
      let rest = remove_first n xs in if str_eq (key x) n then xs else x ∷ rest

  -- all elements of a name are removed
  unfoldable pub remove_all : String → List A → List A
  remove_all n = select λ x. not (str_eq (key x) n)

  -- no two elements have the same name
  abbrev pub IsUnique : List A → Type 0
  IsUnique [] = Unit
  IsUnique (x ∷ xs) = (find (key x) xs ≡ none) × IsUnique xs

  pub find-ensure :
      (y : A) (xs : List A) (n : String)
      → find n (ensure y xs) ≡ (if str_eq (key y) n then some y else find n xs)
  unfolding find put
  find-ensure y [] n = refl
  find-ensure y (x ∷ xs) n =
      ground (arith, find-ensure y xs n, eq_iff (key x) (key y), eq_iff (key x) n, eq_iff (key y) n)

  pub find-remove_all :
      (m : String) (xs : List A) (n : String)
      → find n (remove_all m xs) ≡ (if str_eq m n then none else find n xs)
  unfolding find remove_all
  find-remove_all m [] n = ground arith
  find-remove_all m (x ∷ xs) n =
      ground (arith, find-remove_all m xs n, eq_iff (key x) m, eq_iff (key x) n, eq_iff m n)

  -- in a list without two elements of a name, removing the first leaves none
  pub find-remove_first :
      (m : String) (xs : List A) (n : String)
      → IsUnique xs
      → find n (remove_first m xs) ≡ (if str_eq m n then none else find n xs)
  unfolding find remove_first
  find-remove_first m [] n u = ground arith
  find-remove_first m (x ∷ xs) n u =
      ground
        (arith, u.0, find-remove_first m xs n u.1, eq_iff (key x) m, eq_iff (key x) n, eq_iff m n)

  pub ensure-IsUnique : (y : A) (xs : List A) → IsUnique xs → IsUnique (ensure y xs)
  unfolding find put
  ensure-IsUnique y [] u = (refl, tt)
  ensure-IsUnique y (x ∷ xs) u = elim (Bool-cases (str_eq (key x) (key y))) [
    | inl e ↦ rw e (ground (arith, u.0, eq_iff (key x) (key y)), u.1)
    | inr e ↦ rw e (
      ground (arith, u.0, find-ensure y xs (key x), eq_iff (key x) (key y), eq_iff (key y) (key x)),
      ensure-IsUnique y xs u.1,
    )
  ]

  pub remove_first-IsUnique :
      (m : String) (xs : List A) → IsUnique xs → IsUnique (remove_first m xs)
  unfolding remove_first
  remove_first-IsUnique m [] u = tt
  remove_first-IsUnique m (x ∷ xs) u = elim (Bool-cases (str_eq (key x) m)) [
    | inl e ↦ rw e u.1
    | inr e ↦
        rw e
          (ground (arith, u.0, find-remove_first m xs (key x) u.1), remove_first-IsUnique m xs u.1)
  ]

  -- removing after adding is removing
  pub remove_all-ensure :
      (y : A) (xs : List A) → remove_all (key y) (ensure y xs) ≡ remove_all (key y) xs
  unfolding put remove_all
  remove_all-ensure y [] = ground (arith, eq_iff (key y) (key y))
  remove_all-ensure y (x ∷ xs) =
      ground (arith, remove_all-ensure y xs, eq_iff (key x) (key y), eq_iff (key y) (key y))

  -- adding twice is adding once
  pub ensure_twice : (y : A) (xs : List A) → ensure y (ensure y xs) ≡ ensure y xs
  unfolding put
  ensure_twice y [] = ground (arith, eq_iff (key y) (key y))
  ensure_twice y (x ∷ xs) =
      ground (arith, ensure_twice y xs, eq_iff (key x) (key y), eq_iff (key y) (key y))

  -- the names stay in their order, and a name that is not there comes last
  pub map-ensure :
      (y : A) (xs : List A)
      → map key (ensure y xs)
        ≡ (if is_some (find (key y) xs) then map key xs else map key xs ++ (key y ∷ []))
  unfolding find put
  map-ensure y [] = refl
  map-ensure y (x ∷ xs) = ground (arith, map-ensure y xs, eq_iff (key x) (key y))
