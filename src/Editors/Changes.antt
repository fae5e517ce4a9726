-- ===== src/Editors/Changes.antt =====
-- What the editor of a container makes of its environment and its arguments.
use operator_component_frame.Prelude.{
  String, ◌≡◌, refl, ap, Bool, not, ◌&&◌, ◌||◌, Option, none, some, List, [], ◌∷◌, ◌++◌, any,
  select, map, is_some, arith, str_eq, eq_iff, if◌then◌else◌,
}
use operator_component_frame.Pods.{EnvVar, Container}
use operator_component_frame.Pods.Keyed.{
  find, find-ensure, find-remove_all, remove_all-ensure, ensure_twice, map-ensure,
}
use operator_component_frame.Editors.Containers.{
  env_name, has_arg, ensure_env_var, ensure_env_vars, remove_env_var, remove_env_vars, ensure_arg,
  ensure_args, remove_arg, remove_args,
}

abbrev pub lookup_env : String → Container → Option EnvVar
lookup_env n c = find env_name n c.env

-- the last variable of a name, or else the one given
abbrev pub last_named : String → List EnvVar → Option EnvVar → Option EnvVar
last_named n [] v = v
last_named n (ev ∷ evs) v = last_named n evs (if str_eq ev.name n then some ev else v)

abbrev pub has_text : String → List String → Bool
has_text a bs = any (λ b. str_eq b a) bs

has_text-snoc :
    (b a : String) (l : List String) → has_text b (l ++ (a ∷ [])) ≡ (str_eq a b || has_text b l)
has_text-snoc b a [] = refl
has_text-snoc b a (x ∷ l) = ground (arith, has_text-snoc b a l)

has_text-select :
    (b a : String) (l : List String)
    → has_text b (select (λ x. not (str_eq x a)) l) ≡ (not (str_eq a b) && has_text b l)
has_text-select b a [] = ground arith
has_text-select b a (x ∷ l) =
    ground (arith, has_text-select b a l, eq_iff x a, eq_iff x b, eq_iff a b)

select-snoc :
    (a : String) (l : List String)
    → select (λ x. not (str_eq x a)) (l ++ (a ∷ [])) ≡ select (λ x. not (str_eq x a)) l
select-snoc a [] = ground (arith, eq_iff a a)
select-snoc a (x ∷ l) = ground (arith, select-snoc a l)

find-ensure_env_vars :
    (evs : List EnvVar) (c : Container) (n : String)
    → lookup_env n (ensure_env_vars evs c) ≡ last_named n evs (lookup_env n c)
unfolding ensure_env_vars ensure_env_var
find-ensure_env_vars [] c n = refl
find-ensure_env_vars (ev ∷ evs) c n =
    rw (find-ensure_env_vars evs (ensure_env_var ev c) n, find-ensure env_name ev c.env n) refl

find-remove_env_vars :
    (names : List String) (c : Container) (n : String)
    → lookup_env n (remove_env_vars names c) ≡ (if has_text n names then none else lookup_env n c)
unfolding remove_env_vars remove_env_var
find-remove_env_vars [] c n = refl
find-remove_env_vars (m ∷ names) c n =
    ground
      (arith, find-remove_env_vars names (remove_env_var m c) n, find-remove_all env_name m c.env n)

has_arg-ensure_arg :
    (arg : String) (c : Container) (b : String)
    → has_arg b (ensure_arg arg c) ≡ (str_eq arg b || has_arg b c)
unfolding ensure_arg
has_arg-ensure_arg arg c b = ground (arith, has_text-snoc b arg c.args, eq_iff arg b)

has_arg-ensure_args :
    (args : List String) (c : Container) (b : String)
    → has_arg b (ensure_args args c) ≡ (has_text b args || has_arg b c)
unfolding ensure_args
has_arg-ensure_args [] c b = refl
has_arg-ensure_args (a ∷ args) c b =
    ground (arith, has_arg-ensure_args args (ensure_arg a c) b, has_arg-ensure_arg a c b)

has_arg-remove_args :
    (args : List String) (c : Container) (b : String)
    → has_arg b (remove_args args c) ≡ (not (has_text b args) && has_arg b c)
unfolding remove_args remove_arg
has_arg-remove_args [] c b = ground arith
has_arg-remove_args (a ∷ args) c b =
    ground (arith, has_arg-remove_args args (remove_arg a c) b, has_text-select b a c.args)

ensure_arg_twice :
    (arg : String) (c : Container) → ensure_arg arg (ensure_arg arg c) ≡ ensure_arg arg c
unfolding ensure_arg
ensure_arg_twice arg c = ground (arith, has_text-snoc arg arg c.args, eq_iff arg arg)

remove_arg-ensure_arg :
    (arg : String) (c : Container) → remove_arg arg (ensure_arg arg c) ≡ remove_arg arg c
unfolding ensure_arg remove_arg
remove_arg-ensure_arg arg c = ground (arith, select-snoc arg c.args)

-- What the edits of a container's environment and arguments do: `found` gives the variable that a
-- name has afterwards, `listed` the names in their order, and `present` the arguments.
pub record IsEdited (c : Container) : Type 0 where
  pub found-ensured :
      (evs : List EnvVar) (n : String)
      → lookup_env n (ensure_env_vars evs c) ≡ last_named n evs (lookup_env n c)
  pub found-removed :
      (names : List String) (n : String)
      → lookup_env n (remove_env_vars names c) ≡ (if has_text n names then none else lookup_env n c)
  pub listed :
      (ev : EnvVar)
      → map env_name (ensure_env_var ev c).env ≡ (
          if is_some (lookup_env ev.name c)
          then map env_name c.env
          else map env_name c.env ++ (ev.name ∷ []))
  pub env_again : (ev : EnvVar) → ensure_env_var ev (ensure_env_var ev c) ≡ ensure_env_var ev c
  pub env_undone :
      (ev : EnvVar) → remove_env_var ev.name (ensure_env_var ev c) ≡ remove_env_var ev.name c
  pub present-ensured :
      (args : List String) (b : String)
      → has_arg b (ensure_args args c) ≡ (has_text b args || has_arg b c)
  pub present-removed :
      (args : List String) (b : String)
      → has_arg b (remove_args args c) ≡ (not (has_text b args) && has_arg b c)
  pub arg_again : (arg : String) → ensure_arg arg (ensure_arg arg c) ≡ ensure_arg arg c
  pub arg_undone : (arg : String) → remove_arg arg (ensure_arg arg c) ≡ remove_arg arg c

-- For every container, whatever it has already: after EnsureEnvVars a name has the last of the given
-- variables of that name, or else what it had; after RemoveEnvVars the given names have none, however
-- often they occurred, and the others what they had. EnsureEnvVar keeps the names in their order and
-- appends its own only where it was missing. After EnsureArgs and RemoveArgs exactly the given
-- arguments are there too, or are there no more. Ensuring a variable or an argument twice is ensuring
-- it once, and removing it after that is removing it.
pub container_edits-IsEdited : (c : Container) → IsEdited c
unfolding ensure_env_var remove_env_var
container_edits-IsEdited c = record {
  found-ensured = λ evs. find-ensure_env_vars evs c;
  found-removed = λ names. find-remove_env_vars names c;
  listed = λ ev. map-ensure env_name ev c.env;
  env_again = λ ev. ap (λ (l : List EnvVar). record c { env = l }) (ensure_twice env_name ev c.env);
  env_undone =
      λ ev. ap (λ (l : List EnvVar). record c { env = l }) (remove_all-ensure env_name ev c.env);
  present-ensured = λ args. has_arg-ensure_args args c;
  present-removed = λ args. has_arg-remove_args args c;
  arg_again = λ arg. ensure_arg_twice arg c;
  arg_undone = λ arg. remove_arg-ensure_arg arg c;
}
