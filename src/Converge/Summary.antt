-- ===== src/Converge/Summary.antt =====
-- The converging status that sums up a list of results (`convergeSummary`).
use operator_component_frame.Prelude.{
  ℕ, ◌≤◌, ◌≡◌, refl, sym, ◌∙◌, ◌⊎◌, inl, inr, true, false, List, [], ◌∷◌, All, Any, arith, ltb,
  Bool-cases, ltb→lt, nltb→le, if◌then◌else◌,
}
use operator_component_frame.Status.{Status, converging_priority, is_blank}
use operator_component_frame.Status.Orders.{IsRecognized}
use operator_component_frame.Resource.{ReconcileResult}
use operator_component_frame.Converge.{max_status, converge_summary}

blank_priority : converging_priority Status.blank ≡ 0
unfolding converging_priority
blank_priority = refl

is_blank-eq : (s : Status) → is_blank s ≡ true → s ≡ Status.blank
is_blank-eq s h = ground arith

recognized_not_blank : (s : Status) → IsRecognized s → is_blank s ≡ false
unfolding converging_priority
recognized_not_blank s h = ground arith

module _ {W : Type 0} where
  abbrev prio : ReconcileResult W → ℕ
  prio r = converging_priority r.status.status

  -- each result's status has a priority of its own
  abbrev pub AllRecognized : List (ReconcileResult W) → Type 0
  AllRecognized = All (λ r. IsRecognized r.status.status)

  max_status_up :
      (r : ReconcileResult W) (rs : List (ReconcileResult W)) (m : Status)
      → ltb (converging_priority m) (prio r) ≡ true
      → max_status (r ∷ rs) m ≡ max_status rs r.status.status
  unfolding max_status
  max_status_up r rs m e = rw e

  max_status_stay :
      (r : ReconcileResult W) (rs : List (ReconcileResult W)) (m : Status)
      → ltb (converging_priority m) (prio r) ≡ false
      → max_status (r ∷ rs) m ≡ max_status rs m
  unfolding max_status
  max_status_stay r rs m e = rw e

  max_status_grows :
      (rs : List (ReconcileResult W)) (m v : Status)
      → max_status rs m ≡ v
      → converging_priority m ≤ converging_priority v
  unfolding max_status
  max_status_grows [] m v e = rw e (omega arith)
  max_status_grows (r ∷ rs) m v e = elim (Bool-cases (ltb (converging_priority m) (prio r))) [
    | inl t ↦ omega (
      arith,
      ltb→lt (converging_priority m) (prio r) t,
      max_status_grows rs r.status.status v (sym (max_status_up r rs m t) ∙ e),
    )
    | inr t ↦ max_status_grows rs m v (sym (max_status_stay r rs m t) ∙ e)
  ]

  max_status_top :
      (rs : List (ReconcileResult W)) (m v : Status)
      → max_status rs m ≡ v
      → All (λ r. converging_priority r.status.status ≤ converging_priority v) rs
  max_status_top [] m v e = tt
  max_status_top (r ∷ rs) m v e = elim (Bool-cases (ltb (converging_priority m) (prio r))) [
    | inl t ↦
        let e' = sym (max_status_up r rs m t) ∙ e in
        (max_status_grows rs r.status.status v e', max_status_top rs r.status.status v e')
    | inr t ↦
        let e' = sym (max_status_stay r rs m t) ∙ e in
        (
          omega (arith, nltb→le (converging_priority m) (prio r) t, max_status_grows rs m v e'),
          max_status_top rs m v e',
        )
  ]

  -- the status found is the one that the loop began with, or that of a result
  max_status_found :
      (rs : List (ReconcileResult W)) (m v : Status)
      → max_status rs m ≡ v
      → (v ≡ m) ⊎ Any (λ r. r.status.status ≡ v) rs
  unfolding max_status
  max_status_found [] m v e = inl (sym e)
  max_status_found (r ∷ rs) m v e = elim (Bool-cases (ltb (converging_priority m) (prio r))) [
    | inl t ↦ (elim (max_status_found rs r.status.status v (sym (max_status_up r rs m t) ∙ e)) [
      | inl same ↦ inr (inl (sym same))
      | inr later ↦ inr (inr later)
    ])
    | inr t ↦ (elim (max_status_found rs m v (sym (max_status_stay r rs m t) ∙ e)) [
      | inl same ↦ inl same
      | inr later ↦ inr (inr later)
    ])
  ]

  summary_status :
      (rs : List (ReconcileResult W))
      → (converge_summary rs).status ≡ (
          if is_blank (max_status rs Status.blank)
          then Status.healthy
          else max_status rs Status.blank)
  unfolding converge_summary
  summary_status rs = ground arith

  abbrev IsTop : List (ReconcileResult W) → Status → Type 0
  IsTop rs s =
      All (λ r. converging_priority r.status.status ≤ converging_priority s) rs
      × (Any (λ r. r.status.status ≡ s) rs
          ⊎ (All (λ r. converging_priority r.status.status ≡ 0) rs × (s ≡ Status.healthy)))

  All-weaken :
      (rs : List (ReconcileResult W)) (a b : ℕ)
      → a ≤ b
      → All (λ r. converging_priority r.status.status ≤ a) rs
      → All (λ r. converging_priority r.status.status ≤ b) rs
  All-weaken [] a b h t = tt
  All-weaken (r ∷ rs) a b h t = (omega arith, All-weaken rs a b h t.1)

  All-zero :
      (rs : List (ReconcileResult W))
      → All (λ r. converging_priority r.status.status ≤ 0) rs
      → All (λ r. converging_priority r.status.status ≡ 0) rs
  All-zero [] t = tt
  All-zero (r ∷ rs) t = (omega arith, All-zero rs t.1)

  IsTop-default :
      (rs : List (ReconcileResult W))
      → max_status rs Status.blank ≡ Status.blank
      → IsTop rs Status.healthy
  IsTop-default rs e =
      let t = rw blank_priority at (max_status_top rs Status.blank Status.blank e) in
      (All-weaken rs 0 _ (omega arith) t, inr (All-zero rs t, refl))

  IsTop-found :
      (rs : List (ReconcileResult W)) (v : Status)
      → max_status rs Status.blank ≡ v
      → is_blank v ≡ false
      → IsTop rs v
  IsTop-found rs v e b = (
    max_status_top rs Status.blank v e,
    elim (max_status_found rs Status.blank v e) [ inl nothing ↦ cc | inr found ↦ inl found ],
  )

  -- The summary has the highest priority of all results, and it is the status of one of them; only
  -- where no result has a status with a priority of its own is it Healthy by default.
  pub converge_summary_top :
      (rs : List (ReconcileResult W))
      → All
          (λ r.
            converging_priority r.status.status ≤ converging_priority (converge_summary rs).status)
          rs
        × (Any (λ r. r.status.status ≡ (converge_summary rs).status) rs
            ⊎ (All (λ r. converging_priority r.status.status ≡ 0) rs
                × ((converge_summary rs).status ≡ Status.healthy)))
  converge_summary_top rs = elim (Bool-cases (is_blank (max_status rs Status.blank))) [
    | inl e ↦ rw (summary_status rs, e) (IsTop-default rs (is_blank-eq _ e))
    | inr e ↦ rw (summary_status rs, e) (IsTop-found rs _ refl e)
  ]
