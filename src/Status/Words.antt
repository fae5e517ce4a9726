-- ===== src/Status/Words.antt =====
-- The text of each status word, as the constants of pkg/component/status.go and
-- pkg/component/concepts spell it.
use operator_component_frame.Prelude.{
  String, ◌≡◌, refl, sym, ap, ◌∙◌, List, [], ◌∷◌, str_eq, if◌then◌else◌,
}
use operator_component_frame.Status.{Status}

unfoldable pub text : Status → String
text Status.blank = ""
text Status.healthy = "Healthy"
text Status.creating = "Creating"
text Status.updating = "Updating"
text Status.scaling = "Scaling"
text Status.failing = "Failing"
text Status.operational = "Operational"
text Status.operation_pending = "OperationPending"
text Status.operation_failing = "OperationFailing"
text Status.completed = "Completed"
text Status.completion_pending = "TaskPending"
text Status.completion_running = "TaskRunning"
text Status.completion_failing = "TaskFailing"
text Status.guard_blocked = "Blocked"
text Status.guard_unblocked = "Unblocked"
text Status.unknown = "Unknown"
text Status.error = "Error"
text Status.prerequisite_not_met = "PrerequisiteNotMet"
text Status.disabled = "Disabled"
text Status.feature_gate_error = "FeatureGateError"
text Status.pending_suspension = "PendingSuspension"
text Status.suspending = "Suspending"
text Status.suspended = "Suspended"
text Status.degraded = "Degraded"
text Status.down = "Down"
text (Status.other s) = s

abbrev words : List Status
words =
    Status.blank ∷ Status.healthy ∷ Status.creating ∷ Status.updating ∷ Status.scaling
    ∷ Status.failing ∷ Status.operational ∷ Status.operation_pending ∷ Status.operation_failing
    ∷ Status.completed ∷ Status.completion_pending ∷ Status.completion_running
    ∷ Status.completion_failing ∷ Status.guard_blocked ∷ Status.guard_unblocked ∷ Status.unknown
    ∷ Status.error ∷ Status.prerequisite_not_met ∷ Status.disabled ∷ Status.feature_gate_error
    ∷ Status.pending_suspension ∷ Status.suspending ∷ Status.suspended ∷ Status.degraded
    ∷ Status.down ∷ []

-- the first word of a list that is spelled like the text
find_word : String → List Status → Status
unfolding text
find_word t [] = Status.other t
find_word t (s ∷ ss) = let rest = find_word t ss in if str_eq t (text s) then s else rest

read_word : String → Status
unfolding find_word
read_word t = find_word t words

-- a word that the packages declare, or the empty string
abbrev pub IsDeclared : Status → Type 0
IsDeclared (Status.other s) = ⊥
IsDeclared _ = Unit

read_word-text : (s : Status) → IsDeclared s → read_word (text s) ≡ s
unfolding read_word
read_word-text (Status.other s) h = elim h [ ]
read_word-text Status.blank h = refl
read_word-text s h = refl

-- Two declared status words that are spelled alike are the same word, so no conversion between
-- the status types confuses two of them.
pub text_injective : (s t : Status) → IsDeclared s → IsDeclared t → text s ≡ text t → s ≡ t
text_injective s t hs ht e = sym (read_word-text s hs) ∙ ap read_word e ∙ read_word-text t ht
