-- ===== src/Cluster/Sends.antt =====
-- A postcondition for actions: what they send out has a property, and the owner is left alone.
use operator_component_frame.Prelude.{
  String, ◌≡◌, refl, sym, ◌∙◌, ap, Bool, true, false, Option, List, [], ◌∷◌, ◌++◌, Result, ok, err,
  Error, All, if◌then◌else◌,
}
use mathlib.Core.Path.{subst}
use mathlib.Core.List.{append-nil, append_assoc}
use operator_component_frame.Condition.{Owner}
use operator_component_frame.Cluster.{State, Call}
use operator_component_frame.Cluster.Monad.{
  Action, pure, fail_with, ◌>>=◌, attempt, lift, wrapping, gets, outside, outside_error,
  change_outside, record_call, when_true, continue,
}

pub All-append {ℓ κ} :
    {A : Type ℓ} (P : A → Type κ) (xs ys : List A) → All P xs → All P ys → All P (xs ++ ys)
All-append P [] ys h k = k
All-append P (x ∷ xs) ys h k = (h.0, All-append P xs ys h.1 k)

pub All-map {ℓ κ μ} :
    {A : Type ℓ} (P : A → Type κ) (Q : A → Type μ) (xs : List A)
    → ((x : A) → P x → Q x)
    → All P xs
    → All Q xs
All-map P Q [] f h = tt
All-map P Q (x ∷ xs) f h = (f x h.0, All-map P Q xs f h.1)

module _ {W : Type 0} where
  -- The calls made on the way from one state to another have the property, and the owner is the same.
  pub record IsSent (P : Call → Type 0) (s s' : State W) : Type 0 where
    pub sent : List Call
    pub appended : s'.calls ≡ s.calls ++ sent
    pub allowed : All P sent
    pub same_owner : s'.owner ≡ s.owner

  pub IsSent-nothing :
      (P : Call → Type 0) (s s' : State W) → s'.calls ≡ s.calls → s'.owner ≡ s.owner → IsSent P s s'
  IsSent-nothing P s s' h k = record {
    sent = [];
    appended = h ∙ sym (append-nil s.calls);
    allowed = tt;
    same_owner = k;
  }

  pub IsSent-trans :
      (P : Call → Type 0) (s t u : State W) → IsSent P s t → IsSent P t u → IsSent P s u
  IsSent-trans P s t u h k = record {
    sent = h.sent ++ k.sent;
    appended =
        k.appended
        ∙ ap (λ (l : List Call). l ++ k.sent) h.appended
        ∙ append_assoc s.calls h.sent k.sent;
    allowed = All-append P h.sent k.sent h.allowed k.allowed;
    same_owner = k.same_owner ∙ h.same_owner;
  }

  pub IsSent-map :
      (P Q : Call → Type 0) (s t : State W) → ((c : Call) → P c → Q c) → IsSent P s t → IsSent Q s t
  IsSent-map P Q s t f h = record {
    sent = h.sent;
    appended = h.appended;
    allowed = All-map P Q h.sent f h.allowed;
    same_owner = h.same_owner;
  }

  -- Whatever state the action starts from and however it ends, it sends only what has the property.
  pub record Sends {A : Type 0} (P : Call → Type 0) (m : Action W A) : Type 0 where
    pub from : (s : State W) → IsSent P s (m s).1

  -- The same, for states with the given owner.
  pub record SendsFor {A : Type 0} (owner : Owner) (P : Call → Type 0) (m : Action W A)
      : Type 0 where
    pub from : (s : State W) → s.owner ≡ owner → IsSent P s (m s).1

module _ {W : Type 0} {P : Call → Type 0} where
  pub pure-Sends : {A : Type 0} (a : A) → Sends P (pure {W = W} a)
  unfolding pure
  pure-Sends a = record { from = λ s. IsSent-nothing P s s refl refl }

  pub fail_with-Sends : {A : Type 0} (e : Error) → Sends P (fail_with {W = W} {A = A} e)
  unfolding fail_with
  fail_with-Sends e = record { from = λ s. IsSent-nothing P s s refl refl }

  pub lift-Sends : {A : Type 0} (r : Result A) → Sends P (lift {W = W} r)
  unfolding lift
  lift-Sends r = record { from = λ s. IsSent-nothing P s s refl refl }

  pub gets-Sends : {A : Type 0} (f : State W → A) → Sends P (gets f)
  unfolding gets
  gets-Sends f = record { from = λ s. IsSent-nothing P s s refl refl }

  pub outside-Sends : {A : Type 0} (f : W → Result A × W) → Sends P (outside f)
  unfolding outside
  outside-Sends f = record { from = λ s. IsSent-nothing P s (outside f s).1 refl refl }

  pub outside_error-Sends : (f : W → Option Error × W) → Sends P (outside_error f)
  unfolding outside_error
  outside_error-Sends f = record { from = λ s. IsSent-nothing P s (outside_error f s).1 refl refl }

  pub change_outside-Sends : (f : W → W) → Sends P (change_outside f)
  unfolding change_outside
  change_outside-Sends f = record {
    from = λ s. IsSent-nothing P s (change_outside f s).1 refl refl;
  }

  pub record_call-Sends : (c : Call) → P c → Sends P (record_call {W = W} c)
  unfolding record_call
  record_call-Sends c h = record {
    from = λ s. record { sent = c ∷ []; appended = refl; allowed = (h, tt); same_owner = refl };
  }

  pub attempt-Sends : {A : Type 0} (m : Action W A) → Sends P m → Sends P (attempt m)
  unfolding attempt
  attempt-Sends m h = record { from = λ s. h.from s }

  pub wrapping-Sends :
      {A : Type 0} (ctx : List String) (m : Action W A) → Sends P m → Sends P (wrapping ctx m)
  unfolding wrapping
  wrapping-Sends ctx m h = record { from = λ s. h.from s }

  pub when_true-Sends :
      (b : Bool) (m : Action W (Unit {0})) → (b ≡ true → Sends P m) → Sends P (when_true b m)
  unfolding when_true
  when_true-Sends true m h = h refl
  when_true-Sends false m h = pure-Sends tt

  pub if-Sends :
      {A : Type 0} (b : Bool) (m n : Action W A)
      → (b ≡ true → Sends P m)
      → (b ≡ false → Sends P n)
      → Sends P (if b then m else n)
  if-Sends true m n h k = h refl
  if-Sends false m n h k = k refl

module _ {W : Type 0} {P : Call → Type 0} {A : Type 0} where
  pub if-IsSent :
      (b : Bool) (m n : Action W A) (s t : State W)
      → (b ≡ true → IsSent P s (m t).1)
      → (b ≡ false → IsSent P s (n t).1)
      → IsSent P s ((if b then m else n) t).1
  if-IsSent true m n s t h k = h refl
  if-IsSent false m n s t h k = k refl

module _ {W : Type 0} {P : Call → Type 0} {A B : Type 0} where
  pub continue-Sends :
      (s : State W) (r : Result A × State W) (f : A → Action W B)
      → IsSent P s r.1
      → ((a : A) → r.0 ≡ ok a → IsSent P r.1 (f a r.1).1)
      → IsSent P s (continue r f).1
  continue-Sends s (ok a, t) f h k = IsSent-trans P s t (f a t).1 h (k a refl)
  continue-Sends s (err e, t) f h k = h

  pub bind-Sends :
      (m : Action W A) (f : A → Action W B)
      → Sends P m
      → ((a : A) → Sends P (f a))
      → Sends P (m >>= f)
  unfolding ◌>>=◌
  bind-Sends m f h k = record {
    from = λ s. continue-Sends s (m s) f (h.from s) (λ a e. (k a).from (m s).1);
  }

  -- the same, where what follows relies on a fact about the value
  pub bind-Sends_where :
      (Q : A → Type 0) (m : Action W A) (f : A → Action W B)
      → Sends P m
      → ((s : State W) (a : A) → (m s).0 ≡ ok a → Q a)
      → ((a : A) → Q a → Sends P (f a))
      → Sends P (m >>= f)
  unfolding ◌>>=◌
  bind-Sends_where Q m f h q k = record {
    from = λ s. continue-Sends s (m s) f (h.from s) (λ a e. (k a (q s a e)).from (m s).1);
  }

module _ {W : Type 0} {P : Call → Type 0} {owner : Owner} where
  pub Sends-SendsFor : {A : Type 0} (m : Action W A) → Sends P m → SendsFor owner P m
  Sends-SendsFor m h = record { from = λ s e. h.from s }

  pub bind-SendsFor :
      {A B : Type 0} (m : Action W A) (f : A → Action W B)
      → SendsFor owner P m
      → ((a : A) → SendsFor owner P (f a))
      → SendsFor owner P (m >>= f)
  unfolding ◌>>=◌
  bind-SendsFor m f h k = record {
    from = λ s e.
        continue-Sends s (m s) f (h.from s e)
          (λ a e'. (k a).from (m s).1 ((h.from s e).same_owner ∙ e));
  }

  -- the owner that is read is the one that the action starts with
  pub owner-SendsFor :
      {B : Type 0} (f : Owner → Action W B)
      → SendsFor owner P (f owner)
      → SendsFor owner P (gets (λ s. s.owner) >>= f)
  unfolding ◌>>=◌ gets
  owner-SendsFor f h = record {
    from = λ s e. subst (λ (o : Owner). IsSent P s (f o s).1) (sym e) (h.from s e);
  }

  pub attempt-SendsFor :
      {A : Type 0} (m : Action W A) → SendsFor owner P m → SendsFor owner P (attempt m)
  unfolding attempt
  attempt-SendsFor m h = record { from = λ s e. h.from s e }

  pub wrapping-SendsFor :
      {A : Type 0} (ctx : List String) (m : Action W A)
      → SendsFor owner P m
      → SendsFor owner P (wrapping ctx m)
  unfolding wrapping
  wrapping-SendsFor ctx m h = record { from = λ s e. h.from s e }

  pub if-SendsFor :
      {A : Type 0} (b : Bool) (m n : Action W A)
      → (b ≡ true → SendsFor owner P m)
      → (b ≡ false → SendsFor owner P n)
      → SendsFor owner P (if b then m else n)
  if-SendsFor true m n h k = h refl
  if-SendsFor false m n h k = k refl

pub ruleset sends_rules = (
  pure-Sends, fail_with-Sends, lift-Sends, gets-Sends, outside-Sends, outside_error-Sends,
  change_outside-Sends, record_call-Sends, attempt-Sends, wrapping-Sends, when_true-Sends, if-Sends,
  bind-Sends,
)

pub ruleset owner_rules = (
  bind-SendsFor, owner-SendsFor, attempt-SendsFor, wrapping-SendsFor, if-SendsFor, Sends-SendsFor,
)
