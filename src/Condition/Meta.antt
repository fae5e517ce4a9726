-- ===== src/Condition/Meta.antt =====
-- k8s.io/apimachinery/pkg/api/meta, as far as pkg/component uses it: an interface with the
-- documented behaviour of `FindStatusCondition` and `SetStatusCondition`, and what follows for the
-- component's own `replaceStatusCondition`.
use operator_component_frame.Prelude.{
  ℕ, String, ◌≡◌, refl, Bool, true, false, Option, none, some, List, [], ◌∷◌, arith, str_eq,
  if◌then◌else◌, ◌==◌, eq_iff,
}
use operator_component_frame.Condition.{Condition, ConditionStatus, replace_status_condition}

-- whether two condition statuses are the same
abbrev pub same_status : ConditionStatus → ConditionStatus → Bool
same_status ConditionStatus.is_true ConditionStatus.is_true = true
same_status ConditionStatus.is_false ConditionStatus.is_false = true
same_status ConditionStatus.is_unknown ConditionStatus.is_unknown = true
same_status _ _ = false

-- the time given, or the current time if it is not set
abbrev pub time_or_now : ℕ → ℕ → ℕ
time_or_now t now = if t == 0 then now else t

-- What `SetStatusCondition` documents that it stores: the new fields, and a transition time that
-- moves only when the status changes.
abbrev pub stored : Option Condition → Condition → ℕ → Condition
stored none cond now = record cond {
  last_transition_time = time_or_now cond.last_transition_time now;
}
stored (some old) cond now =
    if same_status old.status cond.status
    then record cond { last_transition_time = old.last_transition_time }
    else record cond { last_transition_time = time_or_now cond.last_transition_time now }

pub record MetaApi : Type 0 where
  pub find_status_condition : List Condition → String → Option Condition
  pub set_status_condition : List Condition → Condition → ℕ → List Condition
  pub find-nil : (t : String) → find_status_condition [] t ≡ none
  pub find-cons :
      (c : Condition) (cs : List Condition) (t : String)
      → find_status_condition (c ∷ cs) t
        ≡ (if str_eq c.condition_type t then some c else find_status_condition cs t)
  pub find-set :
      (cs : List Condition) (c : Condition) (now : ℕ) (t : String)
      → find_status_condition (set_status_condition cs c now) t ≡ (
          if str_eq c.condition_type t
          then some (stored (find_status_condition cs c.condition_type) c now)
          else find_status_condition cs t)

module _ (meta : MetaApi) where
  open meta use {find_status_condition, find-nil, find-cons}

  -- After a replacement the condition of that type is the given one, verbatim, and every other
  -- type is as it was.
  pub find-replace_status_condition :
      (cs : List Condition) (c : Condition) (t : String)
      → find_status_condition (replace_status_condition cs c) t
        ≡ (if str_eq c.condition_type t then some c else find_status_condition cs t)
  unfolding replace_status_condition
  find-replace_status_condition [] c t = find-cons c [] t
  find-replace_status_condition (d ∷ cs) c t = ground (
    arith,
    find-cons d cs t,
    find-cons c cs t,
    find-cons d (replace_status_condition cs c) t,
    find-replace_status_condition cs c t,
    eq_iff d.condition_type c.condition_type,
    eq_iff d.condition_type t,
    eq_iff c.condition_type t,
  )

-- A list that is searched from its head, and set in place or at its end.
unfoldable pub find_first : List Condition → String → Option Condition
find_first [] t = none
find_first (c ∷ cs) t =
    let rest = find_first cs t in if str_eq c.condition_type t then some c else rest

unfoldable pub set_first : List Condition → Condition → ℕ → List Condition
set_first [] cond now = stored none cond now ∷ []
set_first (c ∷ cs) cond now =
    let rest = set_first cs cond now in
    if str_eq c.condition_type cond.condition_type then stored (some c) cond now ∷ cs else c ∷ rest

stored_type :
    (o : Option Condition) (c : Condition) (now : ℕ)
    → (stored o c now).condition_type ≡ c.condition_type
stored_type none c now = refl
stored_type (some old) c now = ground arith

pub find_first-set_first :
    (cs : List Condition) (c : Condition) (now : ℕ) (t : String)
    → find_first (set_first cs c now) t ≡ (
        if str_eq c.condition_type t
        then some (stored (find_first cs c.condition_type) c now)
        else find_first cs t)
unfolding find_first set_first
find_first-set_first [] c now t = ground arith
find_first-set_first (d ∷ cs) c now t = ground (
  arith,
  find_first-set_first cs c now t,
  stored_type (some d) c now,
  eq_iff d.condition_type c.condition_type,
  eq_iff d.condition_type t,
  eq_iff c.condition_type t,
)

unfoldable pub list_meta : MetaApi
unfolding find_first set_first
list_meta = record {
  find_status_condition = find_first;
  set_status_condition = set_first;
  find-nil = λ t. refl;
  find-cons = λ c cs t. refl;
  find-set = find_first-set_first;
}
