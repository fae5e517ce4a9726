-- ===== src/Feature/Decision.antt =====
-- When a version gate is enabled.
use operator_component_frame.Prelude.{
  String, ◌≡◌, refl, ◌↔◌, Bool, true, false, List, [], ◌∷◌, ◌++◌, Result, ok, err, arith, All,
  if◌then◌else◌,
}
use operator_component_frame.Feature.{
  VersionGate, VersionConstraint, when, truths_hold, and_then, constraints_hold, enabled,
}

truths_hold_iff : (ts : List Bool) → (truths_hold ts ≡ true) ↔ All (λ t. t ≡ true) ts
unfolding truths_hold
truths_hold_iff [] = (λ h. tt, λ h. refl)
truths_hold_iff (true ∷ ts) =
    (λ h. (refl, (truths_hold_iff ts).0 h), λ h. (truths_hold_iff ts).1 h.1)
truths_hold_iff (false ∷ ts) = (λ h. cc, λ h. cc (h.0))

and_then-true : (a b : Result Bool) → and_then a b ≡ ok true → (a ≡ ok true) × (b ≡ ok true)
unfolding and_then
and_then-true (ok true) b h = (refl, h)
and_then-true (ok false) b h = cc
and_then-true (err e) b h = cc

constraints_hold_iff :
    (v : String) (cs : List VersionConstraint)
    → (constraints_hold v cs ≡ ok true) ↔ All (λ c. c v ≡ ok true) cs
unfolding constraints_hold
constraints_hold_iff v [] = (λ h. tt, λ h. refl)
constraints_hold_iff v (c ∷ cs) = (
  λ h.
      let p = and_then-true (c v) (constraints_hold v cs) h in
      (p.0, (constraints_hold_iff v cs).0 p.1),
  λ h. rw (h.0) ((constraints_hold_iff v cs).1 h.1),
)

enabled_parts :
    (g : VersionGate)
    → enabled g ≡ ok true
    → (truths_hold g.required_truths ≡ true)
      × (constraints_hold g.current g.version_constraints ≡ ok true)
unfolding enabled
enabled_parts g h = ground arith

-- A gate is enabled exactly when every truth given to `When` holds and every version constraint
-- is satisfied, with no error, for the current version.
pub enabled_iff :
    (g : VersionGate)
    → (enabled g ≡ ok true) ↔ (
        All (λ t. t ≡ true) g.required_truths
        × All (λ c. c g.current ≡ ok true) g.version_constraints)
unfolding enabled
enabled_iff g = (
  λ h.
      let p = enabled_parts g h in
      (
        (truths_hold_iff g.required_truths).0 p.0,
        (constraints_hold_iff g.current g.version_constraints).0 p.1,
      ),
  λ h.
      rw ((truths_hold_iff g.required_truths).1 h.0)
        ((constraints_hold_iff g.current g.version_constraints).1 h.1),
)

truths_hold-append :
    (ts : List Bool) (b : Bool)
    → truths_hold (ts ++ (b ∷ [])) ≡ (if b then truths_hold ts else false)
unfolding truths_hold
truths_hold-append [] b = ground arith
truths_hold-append (t ∷ ts) b = ground (arith, truths_hold-append ts b)

-- A further condition given to `When` is one more conjunct: a false one disables the gate, even
-- where a version constraint would fail with an error, and a true one changes nothing.
pub enabled-when :
    (g : VersionGate) (b : Bool) → enabled (when g b) ≡ (if b then enabled g else ok false)
unfolding enabled when
enabled-when g b = ground (arith, truths_hold-append g.required_truths b)
