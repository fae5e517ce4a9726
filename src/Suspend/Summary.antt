-- ===== src/Suspend/Summary.antt =====
-- What the summary of a suspension tells of the resources.
use operator_component_frame.Prelude.{
  ℕ, ◌≡◌, refl, sym, ◌∙◌, List, [], ◌∷◌, All, Any, arith, ◌⊎◌, inl, inr, ◌≤◌,
}
use operator_component_frame.Cluster.Sends.{All-map}
use operator_component_frame.Status.{Status, StatusWithReason, suspension_priority}
use operator_component_frame.Suspend.{
  SuspensionTally, tally_suspension, tally_suspensions, suspension_verdict, suspension_summary,
}

round_bound :
    (t : SuspensionTally) (r : StatusWithReason)
    → (suspension_priority t.max ≤ suspension_priority (tally_suspension t r).max)
      × (suspension_priority r.status ≤ suspension_priority (tally_suspension t r).max)
unfolding tally_suspension
round_bound t r = ground arith

round_origin :
    (t : SuspensionTally) (r : StatusWithReason)
    → ((tally_suspension t r).max ≡ t.max) ⊎ ((tally_suspension t r).max ≡ r.status)
unfolding tally_suspension
round_origin t r = ground arith

abbrev rank : SuspensionTally → ℕ
rank t = suspension_priority t.max

tally_grows :
    (t : SuspensionTally) (rs : List StatusWithReason) → rank t ≤ rank (tally_suspensions t rs)
unfolding tally_suspensions
tally_grows t [] = omega arith
tally_grows t (r ∷ rs) =
    let h = round_bound t r in let k = tally_grows (tally_suspension t r) rs in omega arith

tally_bound :
    (t : SuspensionTally) (rs : List StatusWithReason)
    → All
        (λ (r : StatusWithReason). suspension_priority r.status ≤ rank (tally_suspensions t rs))
        rs
unfolding tally_suspensions
tally_bound t [] = tt
tally_bound t (r ∷ rs) =
    let h = round_bound t r in
    let k = tally_grows (tally_suspension t r) rs in
    (omega arith, tally_bound (tally_suspension t r) rs)

tally_origin :
    (t : SuspensionTally) (rs : List StatusWithReason)
    → ((tally_suspensions t rs).max ≡ t.max)
      ⊎ Any (λ (r : StatusWithReason). r.status ≡ (tally_suspensions t rs).max) rs
unfolding tally_suspensions
tally_origin t [] = inl refl
tally_origin t (r ∷ rs) = elim (tally_origin (tally_suspension t r) rs) [
  | inl h ↦ elim (round_origin t r) [ inl k ↦ inl (h ∙ k) | inr k ↦ inr (inl (sym (h ∙ k))) ]
  | inr h ↦ inr (inr h)
]

verdict_rank : (t : SuspensionTally) → rank t ≤ suspension_priority (suspension_verdict t).status
unfolding suspension_verdict suspension_priority
verdict_rank t = ground arith

below :
    (t : SuspensionTally) (n : ℕ)
    → n ≤ rank t
    → n ≤ suspension_priority (suspension_verdict t).status
below t n h = let k = verdict_rank t in omega arith

verdict_origin :
    (t : SuspensionTally)
    → ((suspension_verdict t).status ≡ Status.suspended) ⊎ ((suspension_verdict t).status ≡ t.max)
unfolding suspension_verdict
verdict_origin t = ground arith

blank_verdict :
    (t : SuspensionTally) → t.max ≡ Status.blank → (suspension_verdict t).status ≡ Status.suspended
unfolding suspension_verdict
blank_verdict t h = ground arith

Any-map :
    (P Q : StatusWithReason → Type 0) (rs : List StatusWithReason)
    → ((r : StatusWithReason) → P r → Q r)
    → Any P rs
    → Any Q rs
Any-map P Q [] f h = elim h [ ]
Any-map P Q (r ∷ rs) f (inl h) = inl (f r h)
Any-map P Q (r ∷ rs) f (inr h) = inr (Any-map P Q rs f h)

-- The summary of a suspension is the least suspended status among the resources: none ranks above
-- it, and it is the status of one of them, or Suspended.
pub suspension_summary-IsWorst :
    (rs : List StatusWithReason)
    → All
        (λ (r : StatusWithReason).
          suspension_priority r.status ≤ suspension_priority (suspension_summary rs).status)
        rs
      × (((suspension_summary rs).status ≡ Status.suspended)
          ⊎ Any (λ (r : StatusWithReason). r.status ≡ (suspension_summary rs).status) rs)
unfolding suspension_summary
suspension_summary-IsWorst rs =
    let t = tally_suspensions (record { max = Status.blank; reasons = [] }) rs in
    (
      All-map _ _ rs (λ r h. below t (suspension_priority r.status) h) (tally_bound _ rs),
      elim (verdict_origin t) [
        | inl h ↦ inl h
        | inr h ↦ elim (tally_origin (record { max = Status.blank; reasons = [] }) rs) [
          | inl k ↦ inl (blank_verdict t k)
          | inr k ↦ inr (Any-map _ _ rs (λ r e. e ∙ sym h) k)
        ]
      ],
    )
