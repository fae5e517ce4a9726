-- ===== src/Editors/Containers.antt =====
-- pkg/mutation/editors/container.go: the editor of a container.
use operator_component_frame.Prelude.{
  String, Bool, not, List, [], ◌∷◌, ◌++◌, any, select, str_eq, if◌then◌else◌,
}
use operator_component_frame.Pods.{EnvVar, Container, ResourceRequirements}
use operator_component_frame.Pods.Keyed.{ensure, remove_all}
use operator_component_frame.Editors.{set_entry}

abbrev pub env_name : EnvVar → String
env_name ev = ev.name

-- `EnsureEnvVar`
unfoldable pub ensure_env_var : EnvVar → Container → Container
ensure_env_var ev c = record c { env = ensure env_name ev c.env }

-- `EnsureEnvVars`
unfoldable pub ensure_env_vars : List EnvVar → Container → Container
ensure_env_vars [] c = c
ensure_env_vars (ev ∷ evs) c = ensure_env_vars evs (ensure_env_var ev c)

-- `RemoveEnvVar`
unfoldable pub remove_env_var : String → Container → Container
remove_env_var name c = record c { env = remove_all env_name name c.env }

-- `RemoveEnvVars`
unfoldable pub remove_env_vars : List String → Container → Container
remove_env_vars [] c = c
remove_env_vars (name ∷ names) c = remove_env_vars names (remove_env_var name c)

-- `slices.Contains`
abbrev pub has_arg : String → Container → Bool
has_arg arg c = any (λ a. str_eq a arg) c.args

-- `EnsureArg`
unfoldable pub ensure_arg : String → Container → Container
ensure_arg arg c = if has_arg arg c then c else record c { args = c.args ++ (arg ∷ []) }

-- `EnsureArgs`
unfoldable pub ensure_args : List String → Container → Container
ensure_args [] c = c
ensure_args (arg ∷ args) c = ensure_args args (ensure_arg arg c)

-- `RemoveArg`
unfoldable pub remove_arg : String → Container → Container
remove_arg arg c = record c { args = select (λ a. not (str_eq a arg)) c.args }

-- `RemoveArgs`
unfoldable pub remove_args : List String → Container → Container
remove_args [] c = c
remove_args (arg ∷ args) c = remove_args args (remove_arg arg c)

-- `SetResourceLimit`
unfoldable pub set_resource_limit : (name quantity : String) → Container → Container
set_resource_limit name quantity c = record c {
  resources = record c.resources { limits = set_entry name quantity c.resources.limits };
}

-- `SetResourceRequest`
unfoldable pub set_resource_request : (name quantity : String) → Container → Container
set_resource_request name quantity c = record c {
  resources = record c.resources { requests = set_entry name quantity c.resources.requests };
}

-- `SetResources`
unfoldable pub set_resources : ResourceRequirements → Container → Container
set_resources res c = record c { resources = res }
