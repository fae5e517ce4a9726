-- ===== src/Editors/Selectors.antt =====
-- pkg/mutation/selectors/container.go: which containers an edit is for.
use operator_component_frame.Prelude.{ℕ, String, Bool, true, not, List, any, str_eq, ◌==◌}
use operator_component_frame.Pods.{Container}

-- `ContainerSelector`: a test of an index and a container
abbrev pub ContainerSelector : Type 0
ContainerSelector = ℕ → Container → Bool

-- `AllContainers`
unfoldable pub all_containers : ContainerSelector
all_containers i c = true

-- `ContainerNamed`
unfoldable pub container_named : String → ContainerSelector
container_named name i c = str_eq c.name name

-- `ContainersNamed`
unfoldable pub containers_named : List String → ContainerSelector
containers_named names i c = any (λ n. str_eq n c.name) names

-- `ContainerNotNamed`
unfoldable pub container_not_named : String → ContainerSelector
container_not_named name i c = not (str_eq c.name name)

-- `ContainersNotNamed`
unfoldable pub containers_not_named : List String → ContainerSelector
containers_not_named names i c = not (any (λ n. str_eq n c.name) names)

-- `ContainerAtIndex`
unfoldable pub container_at_index : ℕ → ContainerSelector
container_at_index index i c = i == index
