-- ===== src/Converge.antt =====
-- pkg/component/converge.go: the aggregation of the resources' results.
pub mod Summary
pub mod Healthy
pub mod Grading
use operator_component_frame.Prelude.{
  ℕ, String, Bool, true, false, not, ◌&&◌, ◌||◌, Option, none, some, List, [], ◌∷◌, ◌++◌, map,
  select, concat, join, ltb, ◌==◌, str_eq, if◌then◌else◌, Result, ok, err, wrap,
}
use operator_component_frame.Status.{
  Status, StatusWithReason, severity, converging_priority, is_healthy, grace_priority, is_blank,
  is_guard_blocked, is_grace_healthy,
}
use operator_component_frame.Resource.{ParticipationMode, ReconcileResult}

abbrev pub is_required : ParticipationMode → Bool
is_required ParticipationMode.required = true
is_required _ = false

abbrev pub cons_result {ℓ} : {A : Type ℓ} → Result A → Result (List A) → Result (List A)
cons_result (err e) rest = err e
cons_result (ok r) (err e) = err e
cons_result (ok r) (ok rs) = ok (r ∷ rs)

-- the variables of the loop of `graceSummary`
pub record GraceTally : Type 0 where
  pub max : Status
  pub reasons : List String
  pub any_graceful : Bool

-- one round of that loop
unfoldable pub tally_grace : GraceTally → Option StatusWithReason → GraceTally
tally_grace t none = t
tally_grace t (some g) =
    let higher = ltb (grace_priority t.max) (grace_priority g.status) in
    let same = (grace_priority g.status == grace_priority t.max) && not (str_eq g.reason "") in
    record {
      max = if higher then g.status else t.max;
      reasons =
          if higher
          then g.reason ∷ []
          else (if same then t.reasons ++ (g.reason ∷ []) else t.reasons);
      any_graceful = true;
    }

module _ {W : Type 0} where
  abbrev pub status_word : ReconcileResult W → Status
  status_word r = r.status.status

  -- `reconcileResults.healthy`
  unfoldable pub results_healthy : List (ReconcileResult W) → Bool
  unfolding is_healthy
  results_healthy [] = true
  results_healthy (r ∷ rs) = is_healthy r.status.status && results_healthy rs

  -- `reconcileResults.filterParticipators`
  unfoldable pub filter_participators : List (ReconcileResult W) → List (ReconcileResult W)
  filter_participators =
      select
        (λ r. is_guard_blocked r.status.status || is_required r.entry.options.participation_mode)

  -- the first loop of `convergeSummary`
  unfoldable pub max_status : List (ReconcileResult W) → Status → Status
  max_status [] m = m
  max_status (r ∷ rs) m = max_status rs (
      if ltb (converging_priority m) (converging_priority r.status.status)
      then r.status.status
      else m)

  abbrev pub reason_of : ReconcileResult W → String
  reason_of r = r.status.reason

  -- the second loop of `convergeSummary`: the reasons of one severity
  unfoldable pub reasons_of_severity : ℕ → List (ReconcileResult W) → List String
  reasons_of_severity n rs =
      map reason_of
        (select (λ r. (severity r.status.status == n) && not (str_eq r.status.reason "")) rs)

  -- `reconcileResults.convergeSummary`
  unfoldable pub converge_summary : List (ReconcileResult W) → StatusWithReason
  unfolding max_status reasons_of_severity
  converge_summary rs =
      let found = max_status rs Status.blank in
      let m = if is_blank found then Status.healthy else found in
      if is_healthy m
      then record { status = m; reason = "All resources healthy." }
      else record { status = m; reason = join "; " (reasons_of_severity (severity m) rs) }

  abbrev pub with_grace : ReconcileResult W → StatusWithReason → ReconcileResult W
  with_grace r s = record r { grace_status = some s }

  -- the grace status of a result whose guard blocked it
  abbrev pub blocked_grace : ReconcileResult W → StatusWithReason
  blocked_grace r = record {
    status = Status.down;
    reason =
        if str_eq r.status.reason ""
        then concat (r.entry.resource.identity ∷ " is blocked" ∷ [])
        else r.status.reason;
  }

  -- one round of `evaluateGrace`
  unfoldable pub grade : W → ReconcileResult W → Result (ReconcileResult W)
  grade w r =
      if is_guard_blocked r.status.status
      then ok (with_grace r (blocked_grace r))
      else (elim r.entry.resource.graceful [
        | none ↦ ok r
        | some grace_of ↦ elim (grace_of w) [
          | err e ↦ err (
              wrap
                ("failed to evaluate grace status for resource " ∷ r.entry.resource.identity ∷ [])
                e)
          | ok s ↦ ok (with_grace r s)
        ]
      ])

  -- `reconcileResults.evaluateGrace`
  unfoldable pub evaluate_grace : W → List (ReconcileResult W) → Result (List (ReconcileResult W))
  unfolding grade
  evaluate_grace w [] = ok []
  evaluate_grace w (r ∷ rs) = cons_result (grade w r) (evaluate_grace w rs)

  unfoldable pub tally_all : GraceTally → List (ReconcileResult W) → GraceTally
  unfolding tally_grace
  tally_all t [] = t
  tally_all t (r ∷ rs) = tally_all (tally_grace t r.grace_status) rs

  -- `reconcileResults.graceSummary`
  unfoldable pub grace_summary : List (ReconcileResult W) → StatusWithReason
  unfolding tally_all
  grace_summary rs =
      let t = tally_all (record { max = Status.blank; reasons = []; any_graceful = false }) rs in
      if not t.any_graceful
      then record {
        status = Status.down;
        reason = "Component failed to converge within grace period.";
      }
      else (if is_blank t.max || is_grace_healthy t.max
          then record { status = Status.healthy; reason = "All resources healthy." }
          else record { status = t.max; reason = join "; " t.reasons })
