-- ===== src/Handlers/Pod.antt =====
-- pkg/primitives/pod/handlers.go: the status handlers of a Pod.
use operator_component_frame.Prelude.{
  ℕ, String, Bool, false, not, Option, none, some, List, [], ◌∷◌, concat, all, str_eq, ◌==◌,
  if◌then◌else◌,
}
use operator_component_frame.Status.{Status, StatusWithReason, ConvergingOperation}
use operator_component_frame.Handlers.{or_else}

-- `corev1.ContainerStatus`: the reason that it waits for, and the exit code of its termination
pub record ContainerStatus : Type 0 where
  pub name : String
  pub ready : Bool
  pub waiting : Option String
  pub terminated : Option ℕ

-- `corev1.Pod`, as its handlers read it
pub record Pod : Type 0 where
  pub phase : String
  pub container_statuses : List ContainerStatus

abbrev crash_looping : Option String → Bool
crash_looping none = false
crash_looping (some reason) = str_eq reason "CrashLoopBackOff"

abbrev failed : Option ℕ → Bool
failed none = false
failed (some exit_code) = not (exit_code == 0)

-- the first loop of `DefaultConvergingStatusHandler`: the first container that fails
unfoldable pub failing_container : List ContainerStatus → Option StatusWithReason
failing_container [] = none
failing_container (cs ∷ css) =
    let rest = failing_container css in
    if crash_looping cs.waiting
    then some (record {
      status = Status.failing;
      reason = concat ("Container " ∷ cs.name ∷ " is in CrashLoopBackOff" ∷ []);
    })
    else if failed cs.terminated
    then some (record {
      status = Status.failing;
      reason = concat ("Container " ∷ cs.name ∷ " terminated with error" ∷ []);
    })
    else rest

-- the loops over the readiness of the containers
unfoldable pub all_ready : List ContainerStatus → Bool
all_ready css = all (λ cs. cs.ready) css

-- the part for a running pod
unfoldable pub running_status : List ContainerStatus → Option StatusWithReason
unfolding all_ready
running_status [] =
    some
      (record { status = Status.creating; reason = "Pod running but container readiness unknown" })
running_status (cs ∷ css) =
    if all_ready (cs ∷ css)
    then some
        (record { status = Status.healthy; reason = "Pod is running and all containers are ready" })
    else none

-- the part for a pod that has ended
unfoldable pub ended_status : String → Option StatusWithReason
ended_status phase =
    if str_eq phase "Failed"
    then some (record { status = Status.failing; reason = "Pod has failed" })
    else if str_eq phase "Succeeded"
    then some (record { status = Status.healthy; reason = "Pod has completed successfully" })
    else none

-- the part for a pod that is neither ready nor has ended
unfoldable pub starting_status : ConvergingOperation → String → StatusWithReason
starting_status ConvergingOperation.updated phase = record {
  status = Status.updating;
  reason = "Pod is being updated";
}
starting_status ConvergingOperation.created phase = record {
  status = Status.creating;
  reason = "Pod is starting";
}
starting_status ConvergingOperation.none_op phase = record {
  status = Status.creating;
  reason =
      if str_eq phase "Running"
      then "Pod running but not all containers ready"
      else if str_eq phase "Pending"
      then "Pod is pending"
      else concat ("Pod phase is " ∷ phase ∷ []);
}

-- `DefaultConvergingStatusHandler`
unfoldable pub converging_status : ConvergingOperation → Pod → StatusWithReason
unfolding failing_container running_status ended_status starting_status
converging_status op pod = or_else (failing_container pod.container_statuses) (
    or_else (if str_eq pod.phase "Running" then running_status pod.container_statuses else none)
      (or_else (ended_status pod.phase) (starting_status op pod.phase)))

-- the part of `DefaultGraceStatusHandler` for a running pod
unfoldable pub grace_running : List ContainerStatus → StatusWithReason
unfolding all_ready
grace_running [] = record {
  status = Status.degraded;
  reason = "Pod running but container readiness unknown";
}
grace_running (cs ∷ css) =
    if all_ready (cs ∷ css)
    then record { status = Status.healthy; reason = "Pod running and all containers ready" }
    else record { status = Status.degraded; reason = "Pod running but not all containers ready" }

-- `DefaultGraceStatusHandler`
unfoldable pub grace_status : Pod → StatusWithReason
unfolding grace_running
grace_status pod =
    if not (str_eq pod.phase "Running")
    then record { status = Status.down; reason = concat ("Pod phase is " ∷ pod.phase ∷ []) }
    else grace_running pod.container_statuses

-- `DefaultSuspensionStatusHandler`
unfoldable pub suspension_status : Pod → StatusWithReason
suspension_status pod = record { status = Status.suspended; reason = "Pod deleted on suspend" }
