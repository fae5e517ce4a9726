-- ===== src/Editors/PodSpecs.antt =====
-- pkg/mutation/editors/podspec.go: the editor of a pod spec.
use operator_component_frame.Prelude.{
  String, Bool, true, false, not, ◌&&◌, Option, none, some, [], ◌∷◌, ◌++◌, any, select, str_eq,
  if◌then◌else◌,
}
use operator_component_frame.Pods.{PodSpec, Toleration, Volume}
use operator_component_frame.Pods.Keyed.{ensure, remove_all}
use operator_component_frame.Editors.{set_entry, delete_entry_of}

-- `SetServiceAccountName`
unfoldable pub set_service_account_name : String → PodSpec → PodSpec
set_service_account_name name s = record s { service_account_name = name }

-- `EnsureImagePullSecret`
unfoldable pub ensure_image_pull_secret : String → PodSpec → PodSpec
ensure_image_pull_secret name s =
    if any (λ n. str_eq n name) s.image_pull_secrets
    then s
    else record s { image_pull_secrets = s.image_pull_secrets ++ (name ∷ []) }

-- `RemoveImagePullSecret`
unfoldable pub remove_image_pull_secret : String → PodSpec → PodSpec
remove_image_pull_secret name s = record s {
  image_pull_secrets = select (λ n. not (str_eq n name)) s.image_pull_secrets;
}

-- `EnsureNodeSelector`
unfoldable pub ensure_node_selector : (key value : String) → PodSpec → PodSpec
ensure_node_selector key value s = record s { node_selector = set_entry key value s.node_selector }

-- `RemoveNodeSelector`
unfoldable pub remove_node_selector : String → PodSpec → PodSpec
remove_node_selector key s = record s { node_selector = delete_entry_of key s.node_selector }

-- equality of texts that may be absent
abbrev pub same_option : Option String → Option String → Bool
same_option none none = true
same_option (some a) (some b) = str_eq a b
same_option _ _ = false

-- `reflect.DeepEqual` on tolerations
unfoldable pub deep_equal : Toleration → Toleration → Bool
deep_equal a b =
    str_eq a.toleration_key b.toleration_key
    && str_eq a.operator b.operator
    && str_eq a.value b.value
    && str_eq a.effect b.effect
    && same_option a.toleration_seconds b.toleration_seconds

-- `EnsureToleration`
unfoldable pub ensure_toleration : Toleration → PodSpec → PodSpec
unfolding deep_equal
ensure_toleration t s =
    if any (λ existing. deep_equal existing t) s.tolerations
    then s
    else record s { tolerations = s.tolerations ++ (t ∷ []) }

-- `RemoveTolerations`; a nil test removes nothing
unfoldable pub remove_tolerations : Option (Toleration → Bool) → PodSpec → PodSpec
remove_tolerations none s = s
remove_tolerations (some match) s = record s {
  tolerations = select (λ t. not (match t)) s.tolerations;
}

abbrev pub volume_name : Volume → String
volume_name v = v.name

-- `EnsureVolume`
unfoldable pub ensure_volume : Volume → PodSpec → PodSpec
ensure_volume v s = record s { volumes = ensure volume_name v s.volumes }

-- `RemoveVolume`
unfoldable pub remove_volume : String → PodSpec → PodSpec
remove_volume name s = record s { volumes = remove_all volume_name name s.volumes }

-- `SetPriorityClassName`
unfoldable pub set_priority_class_name : String → PodSpec → PodSpec
set_priority_class_name name s = record s { priority_class_name = name }

-- `SetHostNetwork`
unfoldable pub set_host_network : Bool → PodSpec → PodSpec
set_host_network enabled s = record s { host_network = enabled }

-- `SetHostPID`
unfoldable pub set_host_pid : Bool → PodSpec → PodSpec
set_host_pid enabled s = record s { host_pid = enabled }

-- `SetHostIPC`
unfoldable pub set_host_ipc : Bool → PodSpec → PodSpec
set_host_ipc enabled s = record s { host_ipc = enabled }

-- `SetSecurityContext`
unfoldable pub set_security_context : Option String → PodSpec → PodSpec
set_security_context ctx s = record s { security_context = ctx }
