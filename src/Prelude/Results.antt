-- ===== src/Prelude/Results.antt =====
-- Chains of steps that return a value or an error.
use mathlib.Core.Path.{◌≡◌, refl}
use mathlib.Core.List.{List, [], ◌∷◌}
use operator_component_frame.Prelude.Errors.{Result, ok, err, wrap, Error}
use mathlib.Core.Logic.{◌⊎◌, inl, inr}
use Prim.Native.String.{String}

infixl 5 ◌>>=◌
abbrev pub ◌>>=◌ : {A B : Type 0} → Result A → (A → Result B) → Result B
err failure >>= next = err failure
ok value >>= next = next value

-- a result whose error, if any, is wrapped
abbrev pub with_context {ℓ} : {A : Type ℓ} → List String → Result A → Result A
with_context ctx (ok a) = ok a
with_context ctx (err e) = err (wrap ctx e)

-- a change that may fail
abbrev pub Edit : Type 0 → Type 0
Edit A = A → Result A

-- the changes in their order, up to the first that fails
unfoldable pub run_edits : {A : Type 0} → List (Edit A) → Edit A
run_edits [] a = ok a
run_edits (edit ∷ edits) a = edit a >>= run_edits edits

pub Result-cases {ℓ} :
    {A : Type ℓ} (r : Result A) → ((e : Error) × (r ≡ err e)) ⊎ ((a : A) × (r ≡ ok a))
Result-cases (err e) = inl (e, refl)
Result-cases (ok a) = inr (a, refl)

module _ {A B : Type 0} where
  -- Chains group either way.
  pub bind_assoc :
      {C : Type 0} (first : Result A) (second : A → Result B) (third : B → Result C)
      → (first >>= second >>= third) ≡ (first >>= λ x. second x >>= third)
  bind_assoc (err x) second third = refl
  bind_assoc (ok x) second third = refl

  -- A chain may go on with another step that does the same.
  pub bind_cong :
      (first : Result A) (next next' : A → Result B)
      → ((x : A) → next x ≡ next' x)
      → (first >>= next) ≡ (first >>= next')
  bind_cong (err x) next next' same = refl
  bind_cong (ok x) next next' same = same x

-- A last step that only returns changes nothing.
pub bind_returns : {A : Type 0} (last : Result A) → (last >>= ok) ≡ last
bind_returns (err x) = refl
bind_returns (ok x) = refl
