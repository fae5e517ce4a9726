-- ===== src/Builder/Sound.antt =====
-- What holds of a builder after any calls of its methods.
use operator_component_frame.Prelude.{
  String, ◌≡◌, refl, sym, true, false, ◌||◌, Option, none, some, List, [], ◌∷◌, ◌++◌, All, Result,
  ok, err, Error, str_eq, if◌then◌else◌, arith, eq_iff, Bool-cases, inl, inr,
}
use operator_component_frame.Resource.{Resource, ResourceOptions}
use operator_component_frame.Options.{ResourceOption, resolve_resource_options}
use operator_component_frame.Options.Invariant.{IsCoherent, resolve_resource_options-IsCoherent}
use operator_component_frame.Builder.{
  Builder, new_component_builder, add_error, with_name, with_condition_type, place, is_registered,
  with_resolved, with_resource,
}
use operator_component_frame.Builder.Placed.{
  registered, IsReconciled, IsDeleted, registered-place, place-lists, place-names,
}

snoc-nonempty : {A : Type 0} (xs : List A) (y : A) → xs ++ (y ∷ []) ≡ [] → ⊥
snoc-nonempty [] y h = ground (arith, h)
snoc-nonempty (x ∷ xs) y h = ground (arith, h)

pub ++-empty : {A : Type 0} (xs ys : List A) → xs ++ ys ≡ [] → (xs ≡ []) × (ys ≡ [])
++-empty [] ys h = (refl, h)
++-empty (x ∷ xs) ys h = ground (arith, h)

module _ {W : Type 0} where
  -- What holds of a builder after any calls of its methods.
  pub record IsSound (b : Builder W) : Type 0 where
    pub counted :
        (n : String)
        → registered n b.component ≡ (if is_registered n b.resource_lookup then 1 else 0)
    pub reconciled : All IsReconciled b.component.reconcile_resources
    pub deleted : All IsDeleted b.component.delete_resources
    pub named : b.build_errors ≡ [] → b.name_supplied ≡ true → str_eq b.component.name "" ≡ false
    pub typed :
        b.build_errors ≡ []
        → b.condition_type_supplied ≡ true
        → str_eq b.component.condition_type "" ≡ false

  is_registered-snoc :
      (n : String) (rs : List (Resource W)) (r : Resource W)
      → is_registered n (rs ++ (r ∷ [])) ≡ (is_registered n rs || str_eq r.identity n)
  is_registered-snoc n [] r = ground arith
  is_registered-snoc n (s ∷ rs) r = ground (arith, is_registered-snoc n rs r)

  pub new_component_builder-IsSound : IsSound new_component_builder
  unfolding new_component_builder
  new_component_builder-IsSound = record {
    counted = λ n. refl;
    reconciled = tt;
    deleted = tt;
    named = λ h k. ground (arith, k);
    typed = λ h k. ground (arith, k);
  }

  pub add_error-IsSound : (e : Error) (b : Builder W) → IsSound b → IsSound (add_error e b)
  add_error-IsSound e b s = record {
    counted = s.counted;
    reconciled = s.reconciled;
    deleted = s.deleted;
    named = λ h k. elim (snoc-nonempty b.build_errors e h) [ ];
    typed = λ h k. elim (snoc-nonempty b.build_errors e h) [ ];
  }

  pub with_name-IsSound : (name : String) (b : Builder W) → IsSound b → IsSound (with_name name b)
  unfolding with_name
  with_name-IsSound name b s = elim (Bool-cases (str_eq name "")) [
    | inl q ↦ rw q (record {
      counted = s.counted;
      reconciled = s.reconciled;
      deleted = s.deleted;
      named = λ h k. elim (snoc-nonempty b.build_errors _ h) [ ];
      typed = λ h k. elim (snoc-nonempty b.build_errors _ h) [ ];
    })
    | inr q ↦ rw q (record {
      counted = s.counted;
      reconciled = s.reconciled;
      deleted = s.deleted;
      named = λ h k. q;
      typed = s.typed;
    })
  ]

  pub with_condition_type-IsSound :
      (t : String) (b : Builder W) → IsSound b → IsSound (with_condition_type t b)
  unfolding with_condition_type
  with_condition_type-IsSound t b s = elim (Bool-cases (str_eq t "")) [
    | inl q ↦ rw q (record {
      counted = s.counted;
      reconciled = s.reconciled;
      deleted = s.deleted;
      named = λ h k. elim (snoc-nonempty b.build_errors _ h) [ ];
      typed = λ h k. elim (snoc-nonempty b.build_errors _ h) [ ];
    })
    | inr q ↦ rw q (record {
      counted = s.counted;
      reconciled = s.reconciled;
      deleted = s.deleted;
      named = s.named;
      typed = λ h k. q;
    })
  ]

  fresh :
      (n m : String) (rs : List (Resource W))
      → is_registered m rs ≡ false
      → str_eq m n ≡ true
      → is_registered n rs ≡ false
  fresh n m rs h q = let same : m ≡ n = ground (arith, q, eq_iff m n) in rw (sym same) h

  place-IsSound :
      (r : Resource W) (o : ResourceOptions) (b : Builder W)
      → is_registered r.identity b.resource_lookup ≡ false
      → IsCoherent o
      → IsSound b
      → IsSound (record b {
        resource_lookup = b.resource_lookup ++ (r ∷ []);
        component = place o.orphan o.delete r o b.component;
      })
  place-IsSound r o b h k s =
      let lists =
        place-lists o.orphan o.delete r o b.component refl refl k s.reconciled s.deleted in
      let names = place-names o.orphan o.delete r o b.component in
      record {
        counted = λ n. ground (
          arith,
          registered-place n o.orphan o.delete r o b.component,
          s.counted n,
          is_registered-snoc n b.resource_lookup r,
          fresh n r.identity b.resource_lookup h,
        );
        reconciled = lists.0;
        deleted = lists.1;
        named = λ e q. rw names.0 (s.named e q);
        typed = λ e q. rw names.1 (s.typed e q);
      }

  with_resolved-IsSound :
      (r : Resource W) (b : Builder W) (x : Result ResourceOptions)
      → ((o : ResourceOptions) → x ≡ ok o → IsCoherent o)
      → IsSound b
      → IsSound (with_resolved r b x)
  unfolding with_resolved
  with_resolved-IsSound r b (err e) h s = add_error-IsSound _ b s
  with_resolved-IsSound r b (ok o) h s =
      elim (Bool-cases (is_registered r.identity b.resource_lookup)) [
        | inl q ↦ rw q (add_error-IsSound _ b s)
        | inr q ↦ rw q (place-IsSound r o b q (h o refl) s)
      ]

  pub with_resource-IsSound :
      (r : Option (Resource W)) (opts : List (Option ResourceOption)) (b : Builder W)
      → IsSound b
      → IsSound (with_resource r opts b)
  unfolding with_resource
  with_resource-IsSound none opts b s = add_error-IsSound _ b s
  with_resource-IsSound (some r) opts b s =
      with_resolved-IsSound r b (resolve_resource_options opts)
        (resolve_resource_options-IsCoherent opts) s
