-- ===== src/Prelude/Errors.antt =====
-- Go's `error` values and the pair of a value and an error.
use Prim.Native.String.{String}
use mathlib.Core.Bool.{Bool, true, false}
use mathlib.Core.List.{List, [], ◌∷◌, map}
use mathlib.Core.Option.{Option, none, some}
use operator_component_frame.Prelude.Lists.{concat, join}

-- What `apierrors.IsNotFound` and `apierrors.IsConflict` find in an error: the status of an API error,
-- not found, conflict or another one, or no API error.
pub data ErrorReason : Type 0 where
  not_found conflict other_api generic : ErrorReason

pub record Error : Type 0 where
  pub reason : ErrorReason
  pub message : String

-- A value, or an error that is not nil.
pub data Result {ℓ} (A : Type ℓ) : Type ℓ where
  ok : A → Result A
  err : Error → Result A

-- `errors.New`, and `fmt.Errorf` with no wrapped error
abbrev pub new_error : String → Error
new_error m = record { reason = ErrorReason.generic; message = m }

-- `fmt.Errorf("<context>: %w", err)`, which keeps the class of what it wraps
abbrev pub wrap : List String → Error → Error
wrap ctx e = record e { message = concat (concat ctx ∷ ": " ∷ e.message ∷ []) }

abbrev pub is_not_found : Error → Bool
is_not_found e = elim e.reason [ ErrorReason.not_found ↦ true | _ ↦ false ]

abbrev pub is_conflict : Error → Bool
is_conflict e = elim e.reason [ ErrorReason.conflict ↦ true | _ ↦ false ]

-- the class of the first API error, as `errors.As` picks it
abbrev pub joined_reason : List Error → ErrorReason
joined_reason [] = ErrorReason.generic
joined_reason (e ∷ es) = elim e.reason [
  | ErrorReason.generic ↦ joined_reason es
  | ErrorReason.not_found ↦ ErrorReason.not_found
  | ErrorReason.conflict ↦ ErrorReason.conflict
  | ErrorReason.other_api ↦ ErrorReason.other_api
]

abbrev message_of : Error → String
message_of e = e.message

-- `errors.Join`: nil for no errors, or one error with their messages on lines of their own
abbrev pub join_errors : List Error → Option Error
join_errors [] = none
join_errors (e ∷ es) =
    some (record { reason = joined_reason (e ∷ es); message = join "\n" (map message_of (e ∷ es)) })
