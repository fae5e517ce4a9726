-- ===== src/Converge/Grading.antt =====
-- The grace status that sums up a list of graded results (`evaluateGrace`, `graceSummary`).
use operator_component_frame.Prelude.{
  ◌≡◌, refl, ◌⊎◌, inl, inr, Bool, true, false, ◌||◌, not, Option, none, some, List, [], ◌∷◌, any,
  arith, Result, ok, err, if◌then◌else◌, is_some, Bool-cases,
}
use operator_component_frame.Status.{
  Status, StatusWithReason, grace_priority, is_down, is_degraded, is_guard_blocked,
}
use operator_component_frame.Resource.{ReconcileResult}
use operator_component_frame.Converge.{
  GraceTally, tally_grace, tally_all, grace_summary, grade, evaluate_grace, cons_result,
}

abbrev pub graded_as : (Status → Bool) → Option StatusWithReason → Bool
graded_as p none = false
graded_as p (some g) = p g.status

-- the statuses that the loop's maximum takes
abbrev IsGrade : Status → Type 0
IsGrade s = (s ≡ Status.blank) ⊎ (s ≡ Status.healthy) ⊎ (s ≡ Status.degraded) ⊎ (s ≡ Status.down)

abbrev pub is_failing : Status → Bool
is_failing s = is_down s || is_degraded s

tally_grace-IsGrade :
    (t : GraceTally) (g : Option StatusWithReason) → IsGrade t.max → IsGrade (tally_grace t g).max
unfolding tally_grace grace_priority
tally_grace-IsGrade t none h = h
tally_grace-IsGrade t (some g) h = ground arith

tally_grace-is_down :
    (t : GraceTally) (g : Option StatusWithReason)
    → IsGrade t.max
    → is_down (tally_grace t g).max ≡ (is_down t.max || graded_as is_down g)
unfolding tally_grace grace_priority
tally_grace-is_down t none h = ground arith
tally_grace-is_down t (some g) h = ground arith

tally_grace-is_failing :
    (t : GraceTally) (g : Option StatusWithReason)
    → IsGrade t.max
    → is_failing (tally_grace t g).max ≡ (is_failing t.max || graded_as is_failing g)
unfolding tally_grace grace_priority
tally_grace-is_failing t none h = ground arith
tally_grace-is_failing t (some g) h = ground arith

tally_grace-any :
    (t : GraceTally) (g : Option StatusWithReason)
    → (tally_grace t g).any_graceful ≡ (t.any_graceful || is_some g)
unfolding tally_grace
tally_grace-any t none = ground arith
tally_grace-any t (some g) = ground arith

module _ {W : Type 0} where
  abbrev some_graded : (Status → Bool) → List (ReconcileResult W) → Bool
  some_graded p = any (λ r. graded_as p r.grace_status)

  abbrev has_grade : List (ReconcileResult W) → Bool
  has_grade = any (λ r. is_some r.grace_status)

  record IsTallied (t : GraceTally) (rs : List (ReconcileResult W)) (out : GraceTally)
      : Type 0 where
    grade : IsGrade out.max
    down : is_down out.max ≡ (is_down t.max || some_graded is_down rs)
    failing : is_failing out.max ≡ (is_failing t.max || some_graded is_failing rs)
    graceful : out.any_graceful ≡ (t.any_graceful || has_grade rs)

  tally_all-IsTallied :
      (rs : List (ReconcileResult W)) (t : GraceTally)
      → IsGrade t.max
      → IsTallied t rs (tally_all t rs)
  unfolding tally_all
  tally_all-IsTallied [] t h = record {
    grade = h;
    down = ground arith;
    failing = ground arith;
    graceful = ground arith;
  }
  tally_all-IsTallied (r ∷ rs) t h =
      let ih =
        tally_all-IsTallied rs (tally_grace t r.grace_status)
          (tally_grace-IsGrade t r.grace_status h) in
      record {
        grade = ih.grade;
        down = ground (arith, ih.down, tally_grace-is_down t r.grace_status h);
        failing = ground (arith, ih.failing, tally_grace-is_failing t r.grace_status h);
        graceful = ground (arith, ih.graceful, tally_grace-any t r.grace_status);
      }

  -- The grace summary is Down when no result is graded or one is graded Down, Degraded when none is
  -- Down and one is Degraded, and Healthy otherwise.
  pub grace_summary_lem :
      (rs : List (ReconcileResult W))
      → (grace_summary rs).status ≡ (
          if not (any (λ r. is_some r.grace_status) rs)
            || any (λ r. graded_as is_down r.grace_status) rs
          then Status.down
          else (if any (λ r. graded_as is_failing r.grace_status) rs
              then Status.degraded
              else Status.healthy))
  unfolding grace_summary
  grace_summary_lem rs =
      let start : GraceTally = record { max = Status.blank; reasons = []; any_graceful = false } in
      let h = tally_all-IsTallied rs start (inl refl) in
      ground (arith, h.grade, h.down, h.failing, h.graceful)

  abbrev is_blocked : ReconcileResult W → Bool
  is_blocked r = is_guard_blocked r.status.status

  grade_blocked :
      (w : W) (r g : ReconcileResult W)
      → grade w r ≡ ok g
      → is_blocked r ≡ true
      → graded_as is_down g.grace_status ≡ true
  unfolding grade
  grade_blocked w r g e h = ground arith

  abbrev Graded : W → List (ReconcileResult W) → Result (List (ReconcileResult W)) → Type 0
  Graded w rs (err e) = Unit
  Graded w rs (ok gs) =
      any is_blocked rs ≡ true → any (λ r. graded_as is_down r.grace_status) gs ≡ true

  cons_result-Graded :
      (w : W) (r : ReconcileResult W) (rs : List (ReconcileResult W))
      (g : Result (ReconcileResult W)) (gs : Result (List (ReconcileResult W)))
      → grade w r ≡ g
      → Graded w rs gs
      → Graded w (r ∷ rs) (cons_result g gs)
  cons_result-Graded w r rs (err e) gs h k = tt
  cons_result-Graded w r rs (ok g) (err e) h k = tt
  cons_result-Graded w r rs (ok g) (ok gs) h k = λ b. elim (Bool-cases (is_blocked r)) [
    | inl e ↦ ground (arith, grade_blocked w r g h e)
    | inr e ↦ ground (arith, k)
  ]

  evaluate_grace-Graded :
      (w : W) (rs : List (ReconcileResult W)) → Graded w rs (evaluate_grace w rs)
  unfolding evaluate_grace
  evaluate_grace-Graded w [] = λ h. h
  evaluate_grace-Graded w (r ∷ rs) =
      cons_result-Graded w r rs (grade w r) (evaluate_grace w rs) refl (evaluate_grace-Graded w rs)

  -- A blocked result makes the summary of the graded results Down, whatever the grace handlers of
  -- the resources answer.
  pub grace_summary-evaluate_grace_blocked :
      (w : W) (rs gs : List (ReconcileResult W))
      → evaluate_grace w rs ≡ ok gs
      → any (λ r. is_guard_blocked r.status.status) rs ≡ true
      → (grace_summary gs).status ≡ Status.down
  grace_summary-evaluate_grace_blocked w rs gs e h =
      ground (arith, grace_summary_lem gs, (rw e at (evaluate_grace-Graded w rs)) h)
