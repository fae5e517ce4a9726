-- ===== src/Delete/Observing.antt =====
-- What the controller check observes: an object that the checking reader returned.
use operator_component_frame.Prelude.{
  String, ◌≡◌, refl, Option, none, some, List, [], ◌∷◌, Result, ok, err, arith,
}
use operator_component_frame.Resource.{Object, Resource}
use operator_component_frame.Cluster.{Api, State, Call}
use operator_component_frame.Cluster.Monad.{
  Action, pure, ◌>>=◌, attempt, lift, wrapping, gets, outside, continue,
}
use operator_component_frame.Cluster.Sends.{Sends, sends_rules}
use operator_component_frame.Apply.{look, addressed, found_or_absent}
use operator_component_frame.Apply.Sent.{look-Sends}
use operator_component_frame.Prelude.Results.{with_context}
use operator_component_frame.Delete.{
  Observed, checking_reader, find_live, observed_as, observe_controller,
}

-- In this world the checking reader answers with the object when it is asked for the key of the
-- resource's object.
pub record IsObserved {W : Type 0} (api : Api W) (resource : Resource W) (w : W) (o : Object)
    : Type 0 where
  pub desired : Object
  pub target : Object
  pub described : resource.object w ≡ ok desired
  pub prepared : api.empty_object_like desired ≡ ok target
  pub answered : (checking_reader api (addressed api desired target) w).0 ≡ ok o

module _ {W : Type 0} (api : Api W) where
  find_live-Sends : {P : Call → Type 0} (r : Resource W) → Sends P (find_live api r)
  unfolding find_live
  find_live-Sends r = search (sends_rules, look-Sends) depth 20

  pub observe_controller-Sends :
      {P : Call → Type 0} (r : Resource W) → Sends P (observe_controller api r)
  unfolding observe_controller
  observe_controller-Sends r = search (sends_rules, find_live-Sends) depth 20

  found_of :
      (ctx : List String) (r : Result Object) (o : Object)
      → with_context ctx (found_or_absent api r) ≡ ok (some o)
      → r ≡ ok o
  found_of ctx (ok x) o h = ground arith
  found_of ctx (err e) o h = ground arith

  step_of :
      {A B : Type 0} (ctx : List String) (r : Result A) (s : State W) (f : A → Action W B) (b : B)
      → (continue (with_context ctx r, s) f).0 ≡ ok b
      → (a : A) × (r ≡ ok a) × ((f a s).0 ≡ ok b)
  step_of ctx (ok a) s f b h = (a, refl, h)
  step_of ctx (err e) s f b h = ground arith

  -- what is found was read
  find_live-IsObserved :
      (r : Resource W) (s : State W) (o : Object)
      → (find_live api r s).0 ≡ ok (some o)
      → IsObserved api r s.env o
  unfolding find_live look ◌>>=◌ gets wrapping attempt outside lift
  find_live-IsObserved r s o h =
      let reading : List String =
        "failed to read resource " ∷ r.identity ∷ " for controller check" ∷ [] in
      let with_target : Object → Object → Action W (Option Object) = λ desired target.
        wrapping reading (look api (checking_reader api) (addressed api desired target)) in
      let with_desired : Object → Action W (Option Object) = λ desired.
        wrapping ("failed to prepare controller check for resource " ∷ r.identity ∷ [])
          (lift (api.empty_object_like desired))
        >>= with_target desired in
      let (desired, e, k) =
        step_of ("failed to retrieve object for resource " ∷ r.identity ∷ []) (r.object s.env) s
          with_desired (some o) h in
      let (target, e', k') =
        step_of ("failed to prepare controller check for resource " ∷ r.identity ∷ [])
          (api.empty_object_like desired) s (with_target desired) (some o) k in
      record {
        desired = desired;
        target = target;
        described = e;
        prepared = e';
        answered =
            found_of reading (checking_reader api (addressed api desired target) s.env).0 o k';
      }

  -- every object among what a lookup found was read
  abbrev pub AllObserved : Resource W → W → Option Object → Type 0
  AllObserved r w none = Unit
  AllObserved r w (some o) = IsObserved api r w o

  seen_of :
      (r : Resource W) (s : State W) (found : Result (Option Object) × State W) (seen : Observed)
      → found.1.owner ≡ s.owner
      → (continue found
          (λ live. gets (λ s. s.owner) >>= λ owner. pure (observed_as api owner live))).0
        ≡ ok seen
      → ((o : Object) → found.0 ≡ ok (some o) → IsObserved api r s.env o)
      → (live : Option Object) × (observed_as api s.owner live ≡ seen) × AllObserved r s.env live
  unfolding ◌>>=◌ gets pure
  seen_of r s (ok none, t) seen h e k = (none, grind arith, tt)
  seen_of r s (ok (some o), t) seen h e k = (some o, grind arith, k o refl)
  seen_of r s (err x, t) seen h e k = ground arith

  -- an observation is made for the owner at its start, of an object that is read there
  pub observe_controller-seen :
      (r : Resource W) (s : State W) (seen : Observed)
      → (observe_controller api r s).0 ≡ ok seen
      → (live : Option Object) × (observed_as api s.owner live ≡ seen) × AllObserved r s.env live
  unfolding observe_controller ◌>>=◌ gets pure
  observe_controller-seen r s seen e =
      seen_of r s (find_live api r s) seen ((find_live-Sends {P = λ c. ⊥} r).from s).same_owner e
        (find_live-IsObserved r s)
