-- ===== src/Pipeline/Stopping.antt =====
-- Where the loop of `reconcileResources` stops.
use operator_component_frame.Prelude.{
  String, ◌≡◌, refl, sym, ◌∙◌, ap, Option, none, some, List, [], ◌∷◌, ◌++◌, Result, ok, err, Error,
}
use mathlib.Core.Path.{subst}
use operator_component_frame.Resource.{ReconcileEntry, ReconcileResult}
use operator_component_frame.Cluster.{Api, State}
use operator_component_frame.Cluster.Monad.{◌>>=◌, pure, continue}
use operator_component_frame.Pipeline.{Round, kept, reconcile_one, after_round, reconcile_from}

module _ {W : Type 0} (api : Api W) (component_name field_owner : String) where
  -- All entries are worked off without an error and without a blocked one: the results and the state
  -- that they leave.
  pub Passes : List (ReconcileEntry W) → State W → List (ReconcileResult W) → State W → Type 0
  Passes [] s rs t = (rs ≡ []) × (t ≡ s)
  Passes (entry ∷ entries) s rs t =
      (o : Option (ReconcileResult W)) × (u : State W) × (qs : List (ReconcileResult W))
      × (reconcile_one api component_name field_owner entry s ≡ (ok (Round.done o), u))
      × (rs ≡ kept o qs)
      × Passes entries u qs t

  abbrev pub Outcome : Type 0
  Outcome = Result (List (ReconcileResult W)) × State W

  -- What the loop may do: all entries pass; or those of a first part pass and the entry after them
  -- is blocked, which ends the loop with its result as the last; or the entry after them fails,
  -- which ends the loop with that error.
  pub data Run (entries : List (ReconcileEntry W)) (s : State W) (out : Outcome) : Type 0 where
    complete :
        (rs : List (ReconcileResult W)) (t : State W)
        → Passes entries s rs t
        → out ≡ (ok rs, t)
        → Run entries s out
    stopped :
        (pre : List (ReconcileEntry W)) (entry : ReconcileEntry W) (post : List (ReconcileEntry W))
        (rs : List (ReconcileResult W)) (r : ReconcileResult W) (t u : State W)
        → entries ≡ pre ++ entry ∷ post
        → Passes pre s rs t
        → reconcile_one api component_name field_owner entry t ≡ (ok (Round.blocked r), u)
        → out ≡ (ok (rs ++ r ∷ []), u)
        → Run entries s out
    failed :
        (pre : List (ReconcileEntry W)) (entry : ReconcileEntry W) (post : List (ReconcileEntry W))
        (rs : List (ReconcileResult W)) (e : Error) (t u : State W)
        → entries ≡ pre ++ entry ∷ post
        → Passes pre s rs t
        → reconcile_one api component_name field_owner entry t ≡ (err e, u)
        → out ≡ (err e, u)
        → Run entries s out

  abbrev prefixed : Option (ReconcileResult W) → Outcome → Outcome
  prefixed o (ok rs, t) = (ok (kept o rs), t)
  prefixed o (err e, t) = (err e, t)

  kept-++ :
      (o : Option (ReconcileResult W)) (rs qs : List (ReconcileResult W))
      → kept o (rs ++ qs) ≡ kept o rs ++ qs
  kept-++ none rs qs = refl
  kept-++ (some r) rs qs = refl

  -- a run after an entry that passed
  after_pass :
      (entry : ReconcileEntry W) (entries : List (ReconcileEntry W)) (s u : State W)
      (o : Option (ReconcileResult W)) (out : Outcome)
      → reconcile_one api component_name field_owner entry s ≡ (ok (Round.done o), u)
      → Run entries u out
      → Run (entry ∷ entries) s (prefixed o out)
  unfolding Passes
  after_pass entry entries s u o out h (Run.complete rs t p e) =
      Run.complete (kept o rs) t (o, u, rs, h, refl, p) (ap (prefixed o) e)
  after_pass entry entries s u o out h (Run.stopped pre x post rs r t v e p q k) =
      Run.stopped (entry ∷ pre) x post (kept o rs) r t v
        (ap (λ (l : List (ReconcileEntry W)). entry ∷ l) e) (o, u, rs, h, refl, p) q
        (ap (prefixed o) k
          ∙ ap (λ (l : List (ReconcileResult W)). (ok l, v)) (kept-++ o rs (r ∷ [])))
  after_pass entry entries s u o out h (Run.failed pre x post rs f t v e p q k) =
      Run.failed (entry ∷ pre) x post (kept o rs) f t v
        (ap (λ (l : List (ReconcileEntry W)). entry ∷ l) e) (o, u, rs, h, refl, p) q
        (ap (prefixed o) k)

  continue-prefixed :
      (o : Option (ReconcileResult W)) (out : Outcome)
      → continue out (λ rs. pure (kept o rs)) ≡ prefixed o out
  unfolding pure
  continue-prefixed o (ok rs, t) = refl
  continue-prefixed o (err e, t) = refl

  entry-Run :
      (entry : ReconcileEntry W) (entries : List (ReconcileEntry W)) (s u : State W)
      (round : Result (Round W))
      → reconcile_one api component_name field_owner entry s ≡ (round, u)
      → Run entries u (reconcile_from api component_name field_owner entries u)
      → Run (entry ∷ entries) s (
          continue
            (round, u)
            (after_round api (reconcile_from api component_name field_owner entries)))
  unfolding after_round pure ◌>>=◌ Passes
  entry-Run entry entries s u (err e) h k =
      Run.failed [] entry entries [] e s u refl (refl, refl) h refl
  entry-Run entry entries s u (ok (Round.blocked r)) h k =
      Run.stopped [] entry entries [] r s u refl (refl, refl) h refl
  entry-Run entry entries s u (ok (Round.done o)) h k =
      let rest = reconcile_from api component_name field_owner entries u in
      subst (Run (entry ∷ entries) s) (sym (continue-prefixed o rest))
        (after_pass entry entries s u o rest h k)

  -- The loop of `reconcileResources` does one of three things, from whatever state: all entries
  -- pass, each round from the state that the one before left, and it returns their results; or the
  -- entries of a first part pass and the one after them is blocked, and it returns the results of
  -- that part with the blocked one as the last; or the one after them fails, and it returns that
  -- error. Nothing after a blocked or failing entry is run: the state is the one that its round left.
  pub reconcile_from-Run :
      (entries : List (ReconcileEntry W)) (s : State W)
      → Run entries s (reconcile_from api component_name field_owner entries s)
  unfolding reconcile_from ◌>>=◌ pure Passes
  reconcile_from-Run [] s = Run.complete [] s (refl, refl) refl
  reconcile_from-Run (entry ∷ entries) s =
      let r = reconcile_one api component_name field_owner entry s in
      entry-Run entry entries s r.1 r.0 refl (reconcile_from-Run entries r.1)
