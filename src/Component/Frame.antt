-- ===== src/Component/Frame.antt =====
-- Actions that leave the owner and its condition of one type as they are.
use operator_component_frame.Prelude.{
  String, ◌≡◌, refl, ◌∙◌, ap, Bool, true, false, Result, ok, err, Error, if◌then◌else◌,
}
use operator_component_frame.Condition.{Owner}
use operator_component_frame.Cluster.{State, Call}
use operator_component_frame.Cluster.Monad.{
  Action, pure, fail_with, ◌>>=◌, attempt, gets, outside, change_outside, continue,
}
use operator_component_frame.Cluster.Sends.{Sends}
use operator_component_frame.Component.Phases.{Context}

module _ {W : Type 0} (x : Context W) (t : String) where
  -- The owner is the same but for its conditions, and its condition of the type is the same.
  pub record IsFramed (s s' : State W) : Type 0 where
    pub same_condition :
        x.meta.find_status_condition s'.owner.conditions t
        ≡ x.meta.find_status_condition s.owner.conditions t
    pub same_uid : s'.owner.uid ≡ s.owner.uid
    pub same_kind : s'.owner.kind ≡ s.owner.kind
    pub same_generation : s'.owner.generation ≡ s.owner.generation

  pub IsFramed-refl : (s : State W) → IsFramed s s
  IsFramed-refl s = record {
    same_condition = refl;
    same_uid = refl;
    same_kind = refl;
    same_generation = refl;
  }

  pub IsFramed-trans : (s u v : State W) → IsFramed s u → IsFramed u v → IsFramed s v
  IsFramed-trans s u v h k = record {
    same_condition = k.same_condition ∙ h.same_condition;
    same_uid = k.same_uid ∙ h.same_uid;
    same_kind = k.same_kind ∙ h.same_kind;
    same_generation = k.same_generation ∙ h.same_generation;
  }

  pub of_same_owner : (s u : State W) → u.owner ≡ s.owner → IsFramed s u
  of_same_owner s u h = record {
    same_condition = ap (λ (o : Owner). x.meta.find_status_condition o.conditions t) h;
    same_uid = ap (λ (o : Owner). o.uid) h;
    same_kind = ap (λ (o : Owner). o.kind) h;
    same_generation = ap (λ (o : Owner). o.generation) h;
  }

  pub record Frames {A : Type 0} (m : Action W A) : Type 0 where
    pub from : (s : State W) → IsFramed s (m s).1

  pub Sends-Frames : {A : Type 0} {P : Call → Type 0} (m : Action W A) → Sends P m → Frames m
  Sends-Frames m h = record { from = λ s. of_same_owner s (m s).1 (h.from s).same_owner }

  pub continue-Frames :
      {A B : Type 0} (s : State W) (r : Result A × State W) (f : A → Action W B)
      → IsFramed s r.1
      → ((a : A) → Frames (f a))
      → IsFramed s (continue r f).1
  continue-Frames s (ok a, u) f h k = IsFramed-trans s u (f a u).1 h ((k a).from u)
  continue-Frames s (err e, u) f h k = h

  pub bind-Frames :
      {A B : Type 0} (m : Action W A) (f : A → Action W B)
      → Frames m
      → ((a : A) → Frames (f a))
      → Frames (m >>= f)
  unfolding ◌>>=◌
  bind-Frames m f h k = record { from = λ s. continue-Frames s (m s) f (h.from s) k }

  pub attempt-Frames : {A : Type 0} (m : Action W A) → Frames m → Frames (attempt m)
  unfolding attempt
  attempt-Frames m h = record { from = λ s. h.from s }

  pub if-Frames :
      {A : Type 0} (b : Bool) (m n : Action W A) → Frames m → Frames n → Frames (if b then m else n)
  if-Frames true m n h k = h
  if-Frames false m n h k = k

  pub pure-Frames : {A : Type 0} (a : A) → Frames (pure a)
  unfolding pure
  pure-Frames a = record { from = λ s. IsFramed-refl s }

  pub fail_with-Frames : {A : Type 0} (e : Error) → Frames (fail_with {A = A} e)
  unfolding fail_with
  fail_with-Frames e = record { from = λ s. IsFramed-refl s }

  pub gets-Frames : {A : Type 0} (f : State W → A) → Frames (gets f)
  unfolding gets
  gets-Frames f = record { from = λ s. IsFramed-refl s }

  pub outside-Frames : {A : Type 0} (f : W → Result A × W) → Frames (outside f)
  unfolding outside
  outside-Frames f = record { from = λ s. of_same_owner s (outside f s).1 refl }

  pub change_outside-Frames : (f : W → W) → Frames (change_outside f)
  unfolding change_outside
  change_outside-Frames f = record { from = λ s. of_same_owner s (change_outside f s).1 refl }

pub ruleset frame_rules = (
  bind-Frames, attempt-Frames, if-Frames, pure-Frames, fail_with-Frames, gets-Frames,
  outside-Frames, change_outside-Frames,
)
