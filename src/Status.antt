-- ===== src/Status.antt =====
-- pkg/component/status.go and pkg/component/concepts: the words that report a state, and the
-- orders by which they are aggregated.
--
-- Every status type of the Go code (`convergingStatus`, `Status`, `GraceStatus`,
-- `SuspensionStatus`, the statuses of the concepts) is a string, and the code converts between
-- them with no change of the text. So all of them are one type here: the words that the packages
-- declare, the empty string, and any other string.
pub mod Words
pub mod Orders
use operator_component_frame.Prelude.{ℕ, String, Bool, true, false, not, ◌&&◌, Option, none, some}

pub data Status : Type 0 where
  blank : Status
  healthy creating updating scaling failing : Status
  operational operation_pending operation_failing : Status
  completed completion_pending completion_running completion_failing : Status
  guard_blocked guard_unblocked : Status
  unknown error prerequisite_not_met disabled feature_gate_error : Status
  pending_suspension suspending suspended : Status
  degraded down : Status
  other : String → Status

-- `AliveStatusWithReason` and its like: a status and the explanation of it.
pub record StatusWithReason : Type 0 where
  pub status : Status
  pub reason : String

pub data ConvergingOperation : Type 0 where
  created updated none_op : ConvergingOperation

-- `convergingStatus.severity`
unfoldable pub severity : Status → ℕ
severity Status.healthy = 1
severity Status.operational = 1
severity Status.completed = 1
severity Status.creating = 2
severity Status.operation_pending = 2
severity Status.completion_pending = 2
severity Status.guard_blocked = 2
severity Status.updating = 3
severity Status.scaling = 4
severity Status.completion_running = 4
severity Status.failing = 5
severity Status.operation_failing = 5
severity Status.completion_failing = 5
severity _ = 0

-- `convergingStatus.priority`
unfoldable pub converging_priority : Status → ℕ
converging_priority Status.completed = 1
converging_priority Status.operational = 2
converging_priority Status.healthy = 3
converging_priority Status.completion_pending = 4
converging_priority Status.operation_pending = 5
converging_priority Status.creating = 6
converging_priority Status.updating = 7
converging_priority Status.completion_running = 8
converging_priority Status.scaling = 9
converging_priority Status.guard_blocked = 10
converging_priority Status.completion_failing = 11
converging_priority Status.operation_failing = 12
converging_priority Status.failing = 13
converging_priority _ = 0

-- `convergingStatus.healthy`, and `Status.Healthy`, which calls it
unfoldable pub is_healthy : Status → Bool
is_healthy Status.healthy = true
is_healthy Status.operational = true
is_healthy Status.completed = true
is_healthy _ = false

-- `Status.Priority`
unfoldable pub priority : Status → ℕ
priority Status.completed = 1
priority Status.operational = 2
priority Status.healthy = 3
priority Status.completion_pending = 4
priority Status.operation_pending = 5
priority Status.creating = 6
priority Status.updating = 7
priority Status.completion_running = 8
priority Status.scaling = 9
priority Status.guard_blocked = 10
priority Status.prerequisite_not_met = 10
priority Status.completion_failing = 11
priority Status.operation_failing = 12
priority Status.failing = 13
priority Status.disabled = 14
priority Status.suspended = 15
priority Status.suspending = 16
priority Status.pending_suspension = 17
priority Status.degraded = 18
priority Status.down = 19
priority Status.error = 20
priority Status.feature_gate_error = 20
priority _ = 0

-- `Status.converging`
unfoldable pub is_converging : Status → Bool
is_converging Status.unknown = false
is_converging Status.disabled = false
is_converging Status.feature_gate_error = false
is_converging Status.prerequisite_not_met = false
is_converging Status.pending_suspension = false
is_converging Status.suspending = false
is_converging Status.suspended = false
is_converging _ = true

-- `Status.graceTimed`
unfoldable pub is_grace_timed : Status → Bool
unfolding is_converging is_healthy
is_grace_timed s = is_converging s && not (is_healthy s)

-- `Status.sticky`
unfoldable pub is_sticky : Status → Bool
is_sticky Status.creating = true
is_sticky Status.updating = true
is_sticky Status.scaling = true
is_sticky _ = false

-- `GraceStatus.Priority`
unfoldable pub grace_priority : Status → ℕ
grace_priority Status.healthy = 1
grace_priority Status.degraded = 2
grace_priority Status.down = 3
grace_priority _ = 0

-- `SuspensionStatus.Priority`
unfoldable pub suspension_priority : Status → ℕ
suspension_priority Status.suspended = 1
suspension_priority Status.suspending = 2
suspension_priority Status.pending_suspension = 3
suspension_priority _ = 0

-- the comparisons with one word that the code makes
abbrev pub is_blank : Status → Bool
is_blank Status.blank = true
is_blank _ = false

abbrev pub is_guard_blocked : Status → Bool
is_guard_blocked Status.guard_blocked = true
is_guard_blocked _ = false

abbrev pub is_suspended : Status → Bool
is_suspended Status.suspended = true
is_suspended _ = false

abbrev pub is_degraded : Status → Bool
is_degraded Status.degraded = true
is_degraded _ = false

abbrev pub is_down : Status → Bool
is_down Status.down = true
is_down _ = false

-- `s == GraceStatusHealthy`
abbrev pub is_grace_healthy : Status → Bool
is_grace_healthy Status.healthy = true
is_grace_healthy _ = false
