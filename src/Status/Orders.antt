-- ===== src/Status/Orders.antt =====
-- How the orders on status words agree with one another.
use operator_component_frame.Prelude.{◌≤◌, ◌<◌, ◌≡◌, true, arith}
use operator_component_frame.Status.{
  Status, severity, converging_priority, is_healthy, priority, is_converging, is_grace_timed,
  is_sticky, grace_priority,
}

-- A status that a resource can report while it converges: one with a priority of its own.
abbrev pub IsRecognized : Status → Type 0
IsRecognized s = 0 < converging_priority s

-- The order that picks the status of one component and the order by which an owner compares its
-- components agree on every recognized converging status.
pub converging_priority-eq-priority :
    (s : Status) → IsRecognized s → converging_priority s ≡ priority s
unfolding converging_priority priority
converging_priority-eq-priority s h = ground arith

-- A recognized status is healthy exactly when its priority is at most 3, so a healthy status never
-- hides one that is not.
pub is_healthy_iff_low :
    (s : Status)
    → IsRecognized s
    → (is_healthy s ≡ true → converging_priority s ≤ 3)
      × (converging_priority s ≤ 3 → is_healthy s ≡ true)
unfolding converging_priority is_healthy
is_healthy_iff_low s h = (λ e. ground arith, λ e. ground arith)

-- the same for the severity, by which the reasons are picked
pub is_healthy-severity : (s : Status) → is_healthy s ≡ true → severity s ≡ 1
unfolding severity is_healthy
is_healthy-severity s h = ground arith

-- no status is both kept between reconciles and outside of the converge state machine
pub is_sticky-is_grace_timed : (s : Status) → is_sticky s ≡ true → is_grace_timed s ≡ true
unfolding is_sticky is_grace_timed
is_sticky-is_grace_timed s h = ground arith

pub is_healthy-is_converging : (s : Status) → is_healthy s ≡ true → is_converging s ≡ true
unfolding is_healthy is_converging
is_healthy-is_converging s h = ground arith

pub priority_separates :
    (s t : Status) → 0 < grace_priority s → grace_priority s ≡ grace_priority t → s ≡ t
unfolding grace_priority
priority_separates s t h e = ground arith
