-- ===== src/Cluster/Monad.antt =====
-- Actions: they change the state and return a value or an error; what was written stays written.
use operator_component_frame.Prelude.{
  Bool, Option, none, some, List, [], ◌∷◌, ◌++◌, Result, ok, err, Error, String, if◌then◌else◌,
}
use operator_component_frame.Prelude.Results.{with_context}
use operator_component_frame.Condition.{Condition}
use operator_component_frame.Cluster.{State, Call}

abbrev pub Action : Type 0 → Type 0 → Type 0
Action W A = State W → Result A × State W

abbrev pub or_error : Option Error → Result (Unit {0})
or_error none = ok tt
or_error (some e) = err e

module _ {W : Type 0} where
  unfoldable pub pure : {A : Type 0} → A → Action W A
  pure a s = (ok a, s)

  unfoldable pub fail_with : {A : Type 0} → Error → Action W A
  fail_with e s = (err e, s)

  -- what follows a step that ended in a result and a state
  abbrev pub continue : {A B : Type 0} → Result A × State W → (A → Action W B) → Result B × State W
  continue (ok a, s) f = f a s
  continue (err e, s) f = (err e, s)

  infixl 5 ◌>>=◌ ◌>>◌
  unfoldable pub ◌>>=◌ : {A B : Type 0} → Action W A → (A → Action W B) → Action W B
  ◌>>=◌ m f s = continue (m s) f

  abbrev pub ◌>>◌ : {A B : Type 0} → Action W A → Action W B → Action W B
  m >> k = m >>= λ _. k

  -- an action that is told how a step ended
  unfoldable pub attempt : {A : Type 0} → Action W A → Action W (Result A)
  attempt m s = let (r, s') = m s in (ok r, s')

  unfoldable pub lift : {A : Type 0} → Result A → Action W A
  lift r s = (r, s)

  -- the wrapping of the error that a step returns
  unfoldable pub wrapping : {A : Type 0} → List String → Action W A → Action W A
  wrapping ctx m s = let (r, s') = m s in (with_context ctx r, s')

  unfoldable pub gets : {A : Type 0} → (State W → A) → Action W A
  gets f s = (ok (f s), s)

  -- a call of the outside world
  unfoldable pub outside : {A : Type 0} → (W → Result A × W) → Action W A
  outside f s = let (r, w) = f s.env in (r, record s { env = w })

  unfoldable pub outside_error : (W → Option Error × W) → Action W (Unit {0})
  outside_error f s = let (e, w) = f s.env in (or_error e, record s { env = w })

  unfoldable pub change_outside : (W → W) → Action W (Unit {0})
  change_outside f s = (ok tt, record s { env = f s.env })

  unfoldable pub record_call : Call → Action W (Unit {0})
  record_call c s = (ok tt, record s { calls = s.calls ++ (c ∷ []) })

  -- a change of the conditions that the owner holds in memory
  unfoldable pub change_conditions : (List Condition → List Condition) → Action W (Unit {0})
  change_conditions f s =
      (ok tt, record s { owner = record s.owner { conditions = f s.owner.conditions } })

  unfoldable pub when_true : Bool → Action W (Unit {0}) → Action W (Unit {0})
  when_true b m = if b then m else pure tt
