-- ===== src/Converge/Healthy.antt =====
-- When the summary of the results is healthy.
use operator_component_frame.Prelude.{
  ℕ, ◌≤◌, ◌≡◌, refl, inl, inr, true, List, [], ◌∷◌, All, Any, arith, eq_of_iff,
}
use operator_component_frame.Status.{Status, converging_priority, is_healthy}
use operator_component_frame.Status.Orders.{IsRecognized, is_healthy_iff_low}
use operator_component_frame.Resource.{ReconcileResult}
use operator_component_frame.Converge.{results_healthy, converge_summary}
use operator_component_frame.Converge.Summary.{AllRecognized, converge_summary_top}

-- the summary's status, if it is the default of a list with recognized statuses only
default_healthy :
    (s : Status) → s ≡ Status.healthy → (is_healthy s ≡ true) × (converging_priority s ≡ 3)
unfolding is_healthy converging_priority
default_healthy s e = rw e (refl, refl)

module _ {W : Type 0} where
  healthy_found :
      (rs : List (ReconcileResult W)) (v : Status)
      → results_healthy rs ≡ true
      → Any (λ r. r.status.status ≡ v) rs
      → is_healthy v ≡ true
  unfolding results_healthy
  healthy_found [] v h f = elim f [ ]
  healthy_found (r ∷ rs) v h (inl e) = rw (← e) (ground arith)
  healthy_found (r ∷ rs) v h (inr f) = healthy_found rs v (ground arith) f

  low_healthy :
      (rs : List (ReconcileResult W)) (n : ℕ)
      → AllRecognized rs
      → n ≤ 3
      → All (λ r. converging_priority r.status.status ≤ n) rs
      → results_healthy rs ≡ true
  unfolding results_healthy
  low_healthy [] n k h t = refl
  low_healthy (r ∷ rs) n k h t = ground (
    arith,
    (is_healthy_iff_low r.status.status k.0).1 (omega (arith, t.0, h)),
    low_healthy rs n k.1 h t.1,
  )

  IsRecognized-found :
      (rs : List (ReconcileResult W)) (v : Status)
      → AllRecognized rs
      → Any (λ r. r.status.status ≡ v) rs
      → IsRecognized v
  IsRecognized-found [] v k f = elim f [ ]
  IsRecognized-found (r ∷ rs) v k (inl e) = rw (← e) k.0
  IsRecognized-found (r ∷ rs) v k (inr f) = IsRecognized-found rs v k.1 f

  summary_low :
      (rs : List (ReconcileResult W))
      → AllRecognized rs
      → is_healthy (converge_summary rs).status ≡ true
      → converging_priority (converge_summary rs).status ≤ 3
  summary_low rs k h = elim (converge_summary_top rs).1 [
    | inl f ↦ (is_healthy_iff_low _ (IsRecognized-found rs _ k f)).0 h
    | inr d ↦ omega (arith, (default_healthy _ d.1).1)
  ]

  summary_of_healthy :
      (rs : List (ReconcileResult W))
      → results_healthy rs ≡ true
      → is_healthy (converge_summary rs).status ≡ true
  summary_of_healthy rs h = elim (converge_summary_top rs).1 [
    | inl f ↦ healthy_found rs _ h f
    | inr d ↦ (default_healthy _ d.1).0
  ]

  -- Where every result has a recognized status, the summary is healthy exactly when all results
  -- are.
  pub converge_summary_healthy :
      (rs : List (ReconcileResult W))
      → AllRecognized rs
      → is_healthy (converge_summary rs).status ≡ results_healthy rs
  converge_summary_healthy rs k =
      eq_of_iff _ _ (λ h. low_healthy rs _ k (summary_low rs k h) (converge_summary_top rs).0)
        (summary_of_healthy rs)

  -- the summary of recognized statuses is recognized
  pub converge_summary-IsRecognized :
      (rs : List (ReconcileResult W)) → AllRecognized rs → IsRecognized (converge_summary rs).status
  converge_summary-IsRecognized rs k = elim (converge_summary_top rs).1 [
    | inl f ↦ IsRecognized-found rs _ k f
    | inr d ↦ omega (arith, (default_healthy _ d.1).1)
  ]
